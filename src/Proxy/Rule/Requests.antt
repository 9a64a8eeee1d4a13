-- ===== src/Proxy/Rule/Requests.antt =====
-- What the proof rule shows of a whole request of src/proxy.rs.
use Prim.Native.String.{String}
use l7_proxy.Base.{
  ℕ, ◌≡◌, refl, inl, inr, List, [], ◌∷◌, none, some, get_elem?, length, Bool-cases, Option-cases,
}
use l7_proxy.Base.Float.{Float}
use l7_proxy.Http.{Http, Request}
use l7_proxy.Errors.{ok, built}
use l7_proxy.Config.{ServerConfig}
use l7_proxy.Router.{Route, Router, match_route}
use l7_proxy.Proxy.World.{Env, World, Run, requests_total, note, ask_health}
use l7_proxy.Proxy.Request.{any_healthy, choose_start, serve_route, proxy_request}
use l7_proxy.Proxy.Rule.{Rule, Ended, run_loop-Ended}

module _ {H : Http} {F : Type 0} ⦃f : Float F⦄ {hash : String → ℕ} {env : Env H F}
    {P : Run F → Type 0} {Q : ℕ → Run F → Type 0} {E : Run F → Type 0} where
  module _ (route : Route) (rule : Rule hash env route.balancer P Q E) where
    any_healthy-keeps : (us : List String) (r : Run F) → P r → P (any_healthy env us r).1
    unfolding any_healthy
    any_healthy-keeps [] r h = h
    any_healthy-keeps (u ∷ us) r h =
        let asked = rule.asked r u h in
        elim (Bool-cases (ask_health env u r).0) [
          | inl healthy ↦ rw healthy asked
          | inr not_healthy ↦ rw not_healthy (any_healthy-keeps us (ask_health env u r).1 asked)
        ]

    choose_start-keeps :
        (path : String) (r : Run F) → P r → P (choose_start env hash route path r).1
    unfolding choose_start
    choose_start-keeps path r h = elim (Option-cases (get_elem? r.world.balancers route.balancer)) [
      | inl missing ↦ rw (choose_start, missing) h
      | inr (b, e) ↦ rw (choose_start, e) (rule.chosen r (length route.upstreams) path b e h)
    ]

-- A request as it begins.
abbrev pub fresh : {F : Type 0} → World F → Run F
fresh w = record { world = w; log = []; readings = 1; pauses = 0; suspended = [] }

module _ {H : Http} {F A : Type 0} ⦃f : Float F⦄ (hash : String → ℕ) (ip_text : A → String)
    (env : Env H F) (server : ServerConfig F) (req : Request H A) where
  module _ {P : Run F → Type 0} {Q : ℕ → Run F → Type 0} {E : Run F → Type 0} (route : Route)
      (rule : Rule hash env route.balancer P Q E) where
    serve_route-Ended :
        (body : H.Body) (r : Run F)
        → P r
        → Ended rule (serve_route hash ip_text env server route req body r)
    unfolding serve_route
    serve_route-Ended body r h =
        let begun = choose_start-keeps route rule req.path r h in
        let healthy =
          any_healthy-keeps route rule route.upstreams (choose_start env hash route req.path r).1
            begun in
        elim (Option-cases (choose_start env hash route req.path r).0) [
          | inl panics ↦ rw (serve_route, panics) (inl begun)
          | inr (index, e) ↦ rw (serve_route, e) (run_loop-Ended _ rule _ healthy)
        ]

    -- What the rule shows of a request that is matched by a route.
    pub proxy_request-Ended :
        (router : Router) (w : World F)
        → match_route router req.path ≡ some route
        → P (fresh w)
        → Ended rule (proxy_request hash ip_text env server router w req)
    unfolding proxy_request
    proxy_request-Ended router w matched h = elim (Option-cases env.buffered) [
      | inl broken ↦ rw (proxy_request, matched, broken) (inl (rule.slept _ h))
      | inr (body, arrived) ↦
          rw (proxy_request, matched, arrived) (serve_route-Ended body _ (rule.slept _ h))
    ]

  -- One that is not only tells the metrics.
  pub proxy_request-unmatched :
      (router : Router) (w : World F)
      → match_route router req.path ≡ none
      → proxy_request hash ip_text env server router w req ≡ (
        note (requests_total req.method "unmatched" "404") (fresh w),
        ok (built H 404 "No matching route"),
      )
  unfolding proxy_request
  proxy_request-unmatched router w missed = rw (proxy_request, missed) refl
