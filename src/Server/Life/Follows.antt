-- ===== src/Server/Life/Follows.antt =====
-- What a request leaves behind in the server of src/server.rs, on whichever path through the layers,
-- and where its future is dropped.
use Prim.Native.String.{String}
use l7_proxy.Base.{
  ℕ, ◌≡◌, refl, sym, subst, ◌∙◌, inl, inr, Bool, true, false, some, All, All-imp, All-map,
  All-middle,
}
use l7_proxy.Base.Float.{Float}
use l7_proxy.Http.{Http, HeaderLaws, Request, Response}
use l7_proxy.RateLimiter.{IpAddr, RateLimiter, check}
use l7_proxy.Router.{Router}
use l7_proxy.Router.Longest.{match_route-In}
use l7_proxy.Proxy.World.{World}
use l7_proxy.Proxy.Request.Total.{IsCalm, Sendable, proxy_request_total}
use l7_proxy.Proxy.Serving.{Serves}
use l7_proxy.Proxy.Access.{
  Accesses, unchanged, Accesses-trans, SameLimits-trans, Accesses-Serves, Accesses-SameLimits,
  Accesses-IsValid, InReach-SameLimits,
}
use l7_proxy.Proxy.Access.Segments.{proxy_request-Accesses}
use l7_proxy.Middleware.Stack.{Said, connected-suspended}
use l7_proxy.Middleware.Tokio.{Runtime}
use l7_proxy.Server.{State, world, with_world}
use l7_proxy.Server.Life.{Visit, handle, make_svc}
use l7_proxy.Server.Life.Invariant.{IsAlive, IsSound}

module _ {H : Http} {F : Type 0} (hash : String → ℕ) (ip_text : IpAddr → String)
    (laws : HeaderLaws H) where
  -- The other tasks change the shared state only by accesses, and the request id and the text of the
  -- client's address are of visible ASCII characters.
  abbrev pub IsFair : ⦃f : Float F⦄ → Visit H F → Type 0
  IsFair v =
      ((n : ℕ) (w : World F) → Accesses hash w (v.env.across n w))
      × ((w : World F) → Accesses hash w (v.others w))
      × Sendable hash ip_text v.env (record v.req { remote = some v.remote_ip })

  module _ ⦃f : Float F⦄ ⦃runtime : Runtime⦄ where
    pub handle-IsCalm :
        (v : Visit H F) (s : State F)
        → IsFair v
        → IsAlive s
        → IsCalm (handle hash ip_text v.env (record v.req { remote = some v.remote_ip }) s).result
    unfolding handle
    handle-IsCalm v s (across, others, sends) alive =
        proxy_request_total hash ip_text v.env s.app.config.server s.app.router (world s) _ laws
          (λ route matched.
            Accesses-Serves hash s.app.router.routes (across 0 (world s)) alive route
              (match_route-In s.app.router v.req.path matched))
          sends

    -- A state with the same router that accesses lead to.
    abbrev pub Follows : State F → State F → Type 0
    Follows s s' = (s'.app.router ≡ s.app.router) × Accesses hash (world s) (world s')

    -- What the handler does to the shared state are accesses, up to each of its pauses too.
    handle-Follows :
        (v : Visit H F) (s : State F) (req : Request H IpAddr)
        → IsFair v
        → let future = handle hash ip_text v.env req s in
          Follows s future.state × All (λ p. Follows s p.1) future.suspended
    unfolding handle
    handle-Follows v s req (across, others, sends) =
        let (made, left, _) =
          proxy_request-Accesses hash ip_text v.env s.app.config.server s.app.router (world s) req
            across in
        (
          (refl, made),
          All-map (λ p. Follows s p.1) _ _ (All-imp _ (λ p reached. (refl, reached)) left),
        )

    -- What a connection leaves behind: the state before, the handler's, or that of one of its pauses
    -- with what the others make of it.
    pub Said-Follows :
        (overall_timeout : ℕ) (v : Visit H F) (s s' : State F) (passed : Bool) (resp : Response H)
        → IsFair v
        → Said overall_timeout v.remote_ip v.swept v.made v.now v.begun
            (λ t. with_world t (v.others (world t)))
            (handle hash ip_text v.env)
            v.req
            s.rate_limiter
            s
            passed
            resp
            s'
        → Follows s s'
    Said-Follows overall_timeout v s s' false resp fair (said, e) =
        subst (Follows s) (sym e) (refl, unchanged)
    Said-Follows overall_timeout v s s' true resp fair (inl (in_time, said, e)) =
        subst (Follows s) (sym e) (handle-Follows v s _ fair).0
    Said-Follows overall_timeout v s s' true resp fair (inr (left, late, said, e)) =
        let reached =
          All-middle (λ p. Follows s p.1) late.later _ late.earlier
            (subst (All (λ p. Follows s p.1)) late.splits (handle-Follows v s _ fair).1) in
        subst (Follows s) (sym e) (reached.0, Accesses-trans hash reached.1 (fair.1 (world left)))

    -- So does one that is dropped at a pause of its connection's call.
    pub connected-Follows :
        (overall_timeout : ℕ) (v : Visit H F) (s : State F)
        → IsFair v
        → All
            (λ p.
              (p.1.0 ≡ (check s.rate_limiter v.remote_ip v.swept v.made v.now).1) × Follows s p.1.1)
            ((make_svc hash ip_text overall_timeout v).call v.req (s.rate_limiter, s)).suspended
    connected-Follows overall_timeout v s fair =
        connected-suspended overall_timeout v.remote_ip v.swept v.made v.now v.begun
          (λ t. with_world t (v.others (world t))) (handle hash ip_text v.env) v.req s.rate_limiter
          s (Follows s) (handle-Follows v s _ fair).1

    pub others-Follows :
        (v : Visit H F) (s left : State F)
        → IsFair v
        → Follows s left
        → Follows s (with_world left (v.others (world left)))
    others-Follows v s left fair (router, reached) =
        (router, Accesses-trans hash reached (fair.1 (world left)))

    pub Follows-IsSound :
        (start s s' : State F) (l : RateLimiter F)
        → Follows s s'
        → (l.capacity ≡ s.rate_limiter.capacity)
          × (l.refill_rate ≡ s.rate_limiter.refill_rate)
          × (l.enabled ≡ s.rate_limiter.enabled)
        → IsSound start s
        → IsSound start (record s' { rate_limiter = l })
    Follows-IsSound start s s' l (router, made) (cap, rate, on) sound = record {
      alive =
          subst (λ (r : Router). Serves r.routes (world s')) (sym router)
            (Accesses-Serves hash s.app.router.routes made sound.alive);
      health = Accesses-IsValid hash made sound.health;
      limits = record {
        shared = SameLimits-trans sound.limits.shared (Accesses-SameLimits hash made);
        capacity = cap ∙ sound.limits.capacity;
        refill_rate = rate ∙ sound.limits.refill_rate;
        enabled = on ∙ sound.limits.enabled;
      };
      reach = InReach-SameLimits (Accesses-SameLimits hash made) sound.reach;
    }
