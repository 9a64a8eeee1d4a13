-- ===== src/Metrics/Requests.antt =====
-- What a request of src/proxy.rs leaves in the metrics of src/metrics.rs.
use Prim.Native.String.{String}
use l7_proxy.Base.{
  ℕ, zero, suc, ◌+◌, ◌≡◌, refl, sym, ap, ◌∙◌, inl, inr, none, Option-cases, get_elem?, List, [],
  ◌∷◌, Option, some, arith, if◌then◌else◌,
}
use l7_proxy.Base.Decimal.{show}
use l7_proxy.Base.Float.{Float}
use l7_proxy.Http.{Http, Request, Response}
use l7_proxy.Config.{ServerConfig}
use l7_proxy.Router.{Route, Router, match_route}
use l7_proxy.Errors.{ProxyError, Outcome, ok, err, panicked, into_response}
use l7_proxy.Proxy.World.{World, Env, Run, Action}
use l7_proxy.Proxy.Attempt.{Plan}
use l7_proxy.Proxy.Request.{or_failure, error_status, choose_start, serve_route, proxy_request}
use l7_proxy.Proxy.Request.Total.{any_healthy-log}
use l7_proxy.Proxy.Rounds.{
  Fails, server_error, refused, late, before_attempt, Rounds, begin, skip, fails, Ends, gives_up,
  serves, panics,
}
use l7_proxy.Proxy.Loop.{run_loop-Ends}
use l7_proxy.Proxy.Loop.Counts.{tally}
use l7_proxy.Metrics.{Prometheus, PrometheusLaws, same_labels, Metrics, record_log}
use l7_proxy.Metrics.Recorded.{on_requests, HasLabels, record_log_total}

-- How often a result is counted under some labels: once, under the method, the prefix and the status of
-- its response, which for an error is that of `into_response`, and not at all when it is a panic.
abbrev pub told : {H : Http} → String → String → Outcome (Response H) → List String → ℕ
told method prefix (ok resp) labels =
    if same_labels (method ∷ prefix ∷ show resp.status ∷ []) labels then 1 else 0
told {H} method prefix (err e) labels =
    let status = show (into_response H e).status in
    if same_labels (method ∷ prefix ∷ status ∷ []) labels then 1 else 0
told method prefix panicked labels = 0

module _ {H : Http} {F : Type 0} (env : Env H F) (plan : Plan H) where
  -- The status that the metrics are told is that of the response.
  Fails-status :
      {result : Outcome (Response H)} {kind : String} {e : ProxyError}
      → Fails result kind e
      → error_status e ≡ show (into_response H e).status
  unfolding into_response show
  Fails-status (server_error bad) = refl
  Fails-status refused = refl
  Fails-status late = refl

  Rounds-status :
      {o a : ℕ} {l : Option ProxyError} {log : List Action}
      → Rounds env plan o a l log
      → error_status (or_failure l) ≡ show (into_response H (or_failure l)).status
  unfolding into_response show
  Rounds-status begin = refl
  Rounds-status (skip r) = Rounds-status r
  Rounds-status (fails r more s f) = Fails-status f

  before_attempt-uncounted :
      (a : ℕ) (labels : List String) (log : List Action)
      → tally (on_requests labels) (before_attempt env plan a log) ≡ tally (on_requests labels) log
  before_attempt-uncounted zero labels log = refl
  before_attempt-uncounted (suc a) labels log = refl

  Rounds-uncounted :
      {o a : ℕ} {l : Option ProxyError} {log : List Action} (labels : List String)
      → Rounds env plan o a l log
      → tally (on_requests labels) log ≡ 0
  Rounds-uncounted labels begin = refl
  Rounds-uncounted labels (skip r) = Rounds-uncounted labels r
  Rounds-uncounted labels (fails {a = a} {log = log} r more s f) =
      before_attempt-uncounted a labels log ∙ Rounds-uncounted labels r

  Ends-told :
      {log : List Action} {result : Outcome (Response H)} (labels : List String)
      → Ends env plan log result
      → tally (on_requests labels) log ≡ told plan.method plan.route.prefix result labels
  Ends-told labels (gives_up took r le) =
      rw (sym (Rounds-status r)) (ground (arith, Rounds-uncounted labels r))
  Ends-told labels (serves {a = a} {log = log} took r lt more s e fine) =
      ground (arith, before_attempt-uncounted a labels log, Rounds-uncounted labels r)
  Ends-told labels (panics {a = a} {log = log} r lt more s e) =
      before_attempt-uncounted a labels log ∙ Rounds-uncounted labels r

module _ {H : Http} {F A : Type 0} ⦃f : Float F⦄ (hash : String → ℕ) (ip_text : A → String)
    (env : Env H F) where
  -- What a request is counted as, by its route and its body.
  abbrev pub counted_as :
      Option Route → Option H.Body → String → Outcome (Response H) → List String → ℕ
  counted_as none body method result labels = told method "unmatched" result labels
  counted_as (some route) none method result labels = 0
  counted_as (some route) (some body) method result labels = told method route.prefix result labels

  choose_start-log :
      (route : Route) (path : String) (r : Run F)
      → (choose_start env hash route path r).1.log ≡ r.log
  unfolding choose_start
  choose_start-log route path r = elim (Option-cases (get_elem? r.world.balancers route.balancer)) [
    | inl missing ↦ rw (choose_start, missing) refl
    | inr (b, e) ↦ rw (choose_start, e) refl
  ]

  serve_route-told :
      (server : ServerConfig F) (route : Route) (req : Request H A) (body : H.Body) (r : Run F)
      (labels : List String)
      → r.log ≡ []
      → let (r', result) = serve_route hash ip_text env server route req body r in
        tally (on_requests labels) r'.log ≡ told req.method route.prefix result labels
  unfolding serve_route
  serve_route-told server route req body r labels e =
      let quiet = choose_start-log route req.path r ∙ e in
      elim (Option-cases (choose_start env hash route req.path r).0) [
        | inl stuck ↦ rw (serve_route, stuck) (ap (tally (on_requests labels)) quiet)
        | inr (i, chosen) ↦
            rw (serve_route, chosen)
              (Ends-told env _ labels
                (run_loop-Ends env _ _ (any_healthy-log env route.upstreams _ ∙ quiet)))
      ]

  proxy_request-told :
      (server : ServerConfig F) (router : Router) (w : World F) (req : Request H A)
      (labels : List String)
      → let (r, result) = proxy_request hash ip_text env server router w req in
        tally (on_requests labels) r.log
        ≡ counted_as (match_route router req.path) env.buffered req.method result labels
  unfolding proxy_request show
  proxy_request-told server router w req labels =
      elim (Option-cases (match_route router req.path)) [
        | inl unmatched ↦ rw (proxy_request, unmatched) (ground arith)
        | inr (route, matched) ↦ elim (Option-cases env.buffered) [
          | inl cut ↦ rw (proxy_request, matched, cut) refl
          | inr (body, arrived) ↦
              rw (proxy_request, matched, arrived)
                (serve_route-told server route req body _ labels refl)
        ]
      ]

  -- With a crate that behaves as documented, and vectors that take the labels they are given, the
  -- metrics take the actions of a request without a panic. In `requests_total` one counter is one
  -- higher, and all others are as before: that under the request's method, the prefix of its route, or
  -- "unmatched" if it has none, and the status of its response, which for an error is that of
  -- `into_response`. All are as before if the request panics, or if its body cannot be buffered.
  pub proxy_request-recorded :
      (P : Prometheus) (laws : PrometheusLaws P) (m : Metrics P) (server : ServerConfig F)
      (router : Router) (w : World F) (req : Request H A)
      → HasLabels P m
      → let (r, result) = proxy_request hash ip_text env server router w req in
        (m' : Metrics P) × (record_log P m r.log ≡ some m')
        × HasLabels P m'
        × ((labels : List String)
            → P.value m'.requests_total labels
              ≡ counted_as (match_route router req.path) env.buffered req.method result labels
                + P.value m.requests_total labels)
  proxy_request-recorded P laws m server router w req h =
      let log = (proxy_request hash ip_text env server router w req).0.log in
      let (m', taken, _, h', moved) = record_log_total P laws m log h in
      (
        m',
        taken,
        h',
        λ labels. omega (arith, moved.0 labels, proxy_request-told server router w req labels),
      )
