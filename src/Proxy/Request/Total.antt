-- ===== src/Proxy/Request/Total.antt =====
-- When `proxy_request` answers without a panic.
use Prim.Native.String.{String}
use mathlib.Core.Option
use l7_proxy.Base.{
  ℕ, ◌≡◌, refl, ◌∙◌, subst, ◌⊎◌, inl, inr, List, [], ◌∷◌, Bool-cases, some, true, length,
  Option-cases,
}
use l7_proxy.Base.Float.{Float}
use l7_proxy.Http.{Http, HeaderLaws, Request, Response, Answer, responded, broken, elapsed}
use l7_proxy.Http.Text.{is_visible}
use l7_proxy.Errors.{upstream_failure, upstream_timeout, Outcome, ok, err, panicked}
use l7_proxy.Config.{ServerConfig}
use l7_proxy.Balancer.Ready.{next_index_for_key_total}
use l7_proxy.Router.{Route, Router, match_route}
use l7_proxy.Proxy.Target.{new_uri}
use l7_proxy.Proxy.Headers.{normalize}
use l7_proxy.Proxy.Headers.Normalized.{IsPlain, normalize-expected}
use l7_proxy.Proxy.Serving.{HasBalancer}
use l7_proxy.Proxy.World.{Env, World, Run, ask_health}
use l7_proxy.Proxy.Attempt.{Plan, received, forward_once}
use l7_proxy.Proxy.Request.{any_healthy, choose_start, serve_route, proxy_request}
use l7_proxy.Proxy.Loop.Told.{Told, run_loop-Told}

-- A response, or one of the two errors of an upstream.
abbrev pub IsCalm : {A : Type 0} → Outcome A → Type 0
IsCalm (ok a) = Unit
IsCalm (err e) = (e ≡ upstream_failure) ⊎ (e ≡ upstream_timeout)
IsCalm panicked = ⊥

module _ {H : Http} where
  module _ {F : Type 0} (env : Env H F) (plan : Plan H) where
    received-IsCalm : (a : Answer H) → IsCalm (received env plan a)
    unfolding received
    received-IsCalm (responded resp) = tt
    received-IsCalm broken = inl refl
    received-IsCalm elapsed = inr refl

    forward_once-IsCalm :
        {out : H.HeaderMap} (n : ℕ) (u : String)
        → normalize H plan.headers env.uuid plan.client_ip ≡ ok out
        → IsCalm (forward_once env plan n u)
    unfolding forward_once
    forward_once-IsCalm n u e =
        rw e (elim (Option-cases (H.parse_uri (new_uri u plan.final_path))) [
          | inl bad ↦ rw bad (inl refl)
          | inr (uri, good) ↦ rw good (received-IsCalm _)
        ])

    Told-IsCalm :
        {out : H.HeaderMap} (result : Outcome (Response H))
        → normalize H plan.headers env.uuid plan.client_ip ≡ ok out
        → Told env plan result
        → IsCalm result
    Told-IsCalm (ok resp) e t = tt
    Told-IsCalm (err x) e (inl f) = inl f
    Told-IsCalm (err x) e (inr (n, u, f, _, _)) = inr f
    Told-IsCalm panicked e (n, u, more, p) = subst IsCalm p (forward_once-IsCalm n u e)

module _ {H : Http} {F : Type 0} (env : Env H F) where
  pub any_healthy-log : (us : List String) (r : Run F) → (any_healthy env us r).1.log ≡ r.log
  unfolding any_healthy ask_health
  any_healthy-log [] r = refl
  any_healthy-log (u ∷ us) r = elim (Bool-cases (ask_health env u r).0) [
    | inl healthy ↦ rw healthy refl
    | inr not_healthy ↦ rw not_healthy (any_healthy-log us (ask_health env u r).1)
  ]

module _ {H : Http} {F A : Type 0} ⦃f : Float F⦄ (hash : String → ℕ) (ip_text : A → String)
    (env : Env H F) where
  -- The request id and the text of the client's address are of visible ASCII characters.
  abbrev pub Sendable : Request H A → Type 0
  Sendable req = (is_visible env.uuid ≡ true) × IsPlain (Option.map ip_text req.remote)

  choose_start_total :
      (route : Route) (path : String) (r : Run F)
      → HasBalancer route r.world
      → (i : ℕ) × ((choose_start env hash route path r).0 ≡ some i)
  unfolding choose_start
  choose_start_total route path r (b, e, ready) =
      let (i, chosen) = next_index_for_key_total hash b (length route.upstreams) path ready in
      (i, rw (choose_start, e) chosen)

  choose_start-log :
      (route : Route) (path : String) (r : Run F)
      → HasBalancer route r.world
      → (choose_start env hash route path r).1.log ≡ r.log
  unfolding choose_start
  choose_start-log route path r (b, e, ready) = rw (choose_start, e) refl

  serve_route-IsCalm :
      (server : ServerConfig F) (route : Route) (req : Request H A) (body : H.Body) (r : Run F)
      → (laws : HeaderLaws H) → r.log ≡ []
      → HasBalancer route r.world
      → Sendable req
      → IsCalm (serve_route hash ip_text env server route req body r).1
  unfolding serve_route
  serve_route-IsCalm server route req body r laws e h s =
      let (i, chosen) = choose_start_total route req.path r h in
      let (out, sent, _) =
        normalize-expected H laws req.headers env.uuid (Option.map ip_text req.remote) s.0 s.1 in
      rw (serve_route, chosen)
        (Told-IsCalm env _ _ sent (
          run_loop-Told env _ _
            (any_healthy-log env route.upstreams _ ∙ choose_start-log route req.path r h ∙ e)))

  -- The request is answered, when the balancer of its route is ready once the body has arrived.
  pub proxy_request_total :
      (server : ServerConfig F) (router : Router) (w : World F) (req : Request H A)
      → (laws : HeaderLaws H)
      → ((route : Route)
          → match_route router req.path ≡ some route
          → HasBalancer route (env.across 0 w))
      → Sendable req
      → IsCalm (proxy_request hash ip_text env server router w req).1
  unfolding proxy_request
  proxy_request_total server router w req laws h s =
      elim (Option-cases (match_route router req.path)) [
        | inl unmatched ↦ rw (proxy_request, unmatched) tt
        | inr (route, matched) ↦ elim (Option-cases env.buffered) [
          | inl cut ↦ rw (proxy_request, matched, cut) (inl refl)
          | inr (body, arrived) ↦
              rw (proxy_request, matched, arrived)
                (serve_route-IsCalm server route req body _ laws refl (h route matched) s)
        ]
      ]
