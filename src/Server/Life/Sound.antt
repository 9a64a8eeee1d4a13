-- ===== src/Server/Life/Sound.antt =====
-- That the server of src/server.rs and src/main.rs answers every request, whatever happens.
use Prim.Native.String.{String}
use l7_proxy.Base.{
  ℕ, suc, ◌+◌, ◌≤◌, ◌<◌, ◌≡◌, sym, subst, inl, inr, List, [], ◌∷◌, Option, none, some, true, All,
  All-middle, from_secs, u32_mod,
}
use l7_proxy.Base.Float.{Float}
use l7_proxy.Http.{Http, HeaderLaws, Response}
use l7_proxy.Errors.{ok}
use l7_proxy.Config.{Config}
use l7_proxy.RateLimiter.{IpAddr, RateLimiter, check}
use l7_proxy.RateLimiter.History.{check-settings}
use l7_proxy.RetryBudget.{instant_reach_secs, has_cutoff}
use l7_proxy.Proxy.Access.{has_cutoff-InReach}
use l7_proxy.Reload.Ready.{Servable}
use l7_proxy.Reload.File.{loaded, load, reload_config}
use l7_proxy.Middleware.Stack.{connection-Said}
use l7_proxy.Middleware.Tokio.{Runtime}
use l7_proxy.Server.{State, build_state, world, with_world}
use l7_proxy.Server.Life.{
  Visit, Reply, Event, visited, signalled, probed, abandoned, and_some, handle, make_svc, serve,
  abandon, serve_all,
}
use l7_proxy.Server.Life.Follows.{
  IsFair, handle-IsCalm, Said-Follows, connected-Follows, others-Follows, Follows-IsSound,
}
use l7_proxy.Server.Life.Invariant.{IsSound, reload-IsSound, notes-IsSound, build_state-IsSound}

-- Answered with a response, by the overall timeout after the request was heard.
abbrev pub IsAnswered : {H : Http} → ℕ → Reply H → Type 0
IsAnswered {H} overall_timeout reply =
    (reply.told ≤ reply.heard + overall_timeout) × ((resp : Response H) × (reply.result ≡ ok resp))

All-and_some :
    {A : Type 0} (P : A → Type 0) (o : Option A) (xs : List A)
    → All P (and_some o [])
    → All P xs
    → All P (and_some o xs)
All-and_some P none xs h k = k
All-and_some P (some x) xs (p, h) k = (p, k)

module _ {H : Http} {F : Type 0} (hash : String → ℕ) (ip_text : IpAddr → String)
    (laws : HeaderLaws H) where
  module _ ⦃f : Float F⦄ ⦃runtime : Runtime⦄ where
    -- A request to a sound server is answered with a response, and the server stays sound.
    pub serve-IsSound :
        (overall_timeout : ℕ) (start s : State F) (v : Visit H F)
        → IsFair hash ip_text laws v
        → IsSound start s
        → IsAnswered overall_timeout (serve hash ip_text overall_timeout v s).0
          × IsSound start (serve hash ip_text overall_timeout v s).1
    unfolding serve
    serve-IsSound overall_timeout start s v fair sound =
        let (resp, s', _, told, state, bound, said) =
          connection-Said overall_timeout v.remote_ip v.swept v.made v.now v.begun
            (λ t. with_world t (v.others (world t))) (handle hash ip_text v.env) v.req
            s.rate_limiter s (handle-IsCalm hash ip_text laws v s fair sound.alive) in
        let l = check s.rate_limiter v.remote_ip v.swept v.made v.now in
        (
          (bound, (resp, told)),
          subst (λ (t : RateLimiter F × State F). IsSound start (record t.1 { rate_limiter = t.0 }))
              (sym state)
              (Follows-IsSound hash ip_text laws start s s' l.1
                (Said-Follows hash ip_text laws overall_timeout v s s' _ resp fair said)
                (check-settings s.rate_limiter v.remote_ip v.swept v.made v.now) sound),
        )

    -- So it does when the client hangs up, wherever that is, and a client that is answered before is
    -- answered as well.
    abandon-IsSound :
        (overall_timeout hung_up : ℕ) (start s : State F) (v : Visit H F)
        → IsFair hash ip_text laws v
        → IsSound start s
        → All
            (IsAnswered overall_timeout)
            (and_some (abandon hash ip_text overall_timeout hung_up v s).0 [])
          × IsSound start (abandon hash ip_text overall_timeout hung_up v s).1
    unfolding abandon
    abandon-IsSound overall_timeout hung_up start s v fair sound =
        let future = (make_svc hash ip_text overall_timeout v).call v.req (s.rate_limiter, s) in
        elim (runtime.found hung_up future.suspended) [
          | inl (e, in_time) ↦
              let (answered, next) = serve-IsSound overall_timeout start s v fair sound in
              rw (abandon, e) ((answered, tt), next)
          | inr ((l, left), late, e) ↦
              let (limiter, reached) = All-middle _ late.later _ late.earlier (
                subst (All _) late.splits
                  (connected-Follows hash ip_text laws overall_timeout v s fair)) in
              rw (abandon, e)
                (
                  tt,
                  Follows-IsSound hash ip_text laws start s
                      (with_world left (v.others (world left))) l
                      (others-Follows hash ip_text laws v s left fair reached)
                      (rw limiter (check-settings s.rate_limiter v.remote_ip v.swept v.made v.now))
                      sound,
                )
        ]

    module _ (parse : String → Option (Config F)) where
      -- What is asked of the events: of each request that it is fair, and of each file that can be
      -- loaded that its routes can be served.
      abbrev pub IsExpected : Event H F → Type 0
      IsExpected (visited v) = IsFair hash ip_text laws v
      IsExpected (abandoned hung_up v) = IsFair hash ip_text laws v
      IsExpected (signalled content) =
          (c : Config F) → load parse content ≡ loaded c → All Servable c.routes
      IsExpected (probed notes) = Unit

      serve_all-IsSound :
          (overall_timeout : ℕ) (start s : State F) (es : List (Event H F))
          → IsSound start s
          → All IsExpected es
          → All (IsAnswered overall_timeout) (serve_all hash ip_text parse overall_timeout s es).0
            × IsSound start (serve_all hash ip_text parse overall_timeout s es).1
      unfolding serve_all reload_config
      serve_all-IsSound overall_timeout start s [] sound h = (tt, sound)
      serve_all-IsSound overall_timeout start s (visited v ∷ es) sound (fair, h) =
          let (answered, next) = serve-IsSound overall_timeout start s v fair sound in
          let (rest, end) =
            serve_all-IsSound overall_timeout start (serve hash ip_text overall_timeout v s).1 es
              next h in
          ((answered, rest), end)
      serve_all-IsSound overall_timeout start s (abandoned hung_up v ∷ es) sound (fair, h) =
          let (answered, next) = abandon-IsSound overall_timeout hung_up start s v fair sound in
          let (rest, end) =
            serve_all-IsSound overall_timeout start
              (abandon hash ip_text overall_timeout hung_up v s).1 es next h in
          (All-and_some _ (abandon hash ip_text overall_timeout hung_up v s).0 _ answered rest, end)
      serve_all-IsSound overall_timeout start s (signalled content ∷ es) sound (servable, h) =
          serve_all-IsSound overall_timeout start _ es
            (reload-IsSound hash start s (load parse content) servable sound) h
      serve_all-IsSound overall_timeout start s (probed notes ∷ es) sound (_, h) =
          serve_all-IsSound overall_timeout start _ es (notes-IsSound hash start s notes sound) h

      -- From the state that `build_proxy` builds of a configuration whose routes can be served, whose
      -- failure threshold is below 2 ^ 32 - 1 and whose retry budget's window is at most 2 ^ 63
      -- seconds, in any sequence of requests, of requests whose clients hang up, of signals to reload
      -- and notes of the prober: every request whose client has not hung up by then is answered with a
      -- response, none by a panic, and by the overall timeout of that configuration after it reaches
      -- the timeout layer. In the end the balancers of the router in force are in the store and ready,
      -- no health counter exceeds the threshold, the settings of the health tracker, the retry budget
      -- and the limiter are still those of the start, whichever requests the timeout or a client has
      -- cut short, and at any instant the subtraction of the budget's window from the clock does not
      -- panic. This holds when header maps and values behave as documented, the request ids and the
      -- texts of the clients' addresses are of visible ASCII characters, all other tasks change the
      -- shared state only by accesses, and the routes of each file that can be loaded can be served.
      pub serve_all-build_state :
          (c : Config F) (es : List (Event H F))
          → All Servable c.routes
          → suc c.server.failure_threshold < u32_mod
          → c.server.retry_budget_window_secs ≤ instant_reach_secs
          → All IsExpected es
          → let overall_timeout = from_secs c.server.overall_timeout_secs in
            let (replies, end) =
              serve_all hash ip_text parse overall_timeout (build_state hash c) es in
            All (IsAnswered overall_timeout) replies
            × IsSound (build_state hash c) end
            × ((now : ℕ) → has_cutoff end.retry_budget now ≡ true)
      serve_all-build_state c es servable small window h =
          let overall_timeout = from_secs c.server.overall_timeout_secs in
          let end = (serve_all hash ip_text parse overall_timeout (build_state hash c) es).1 in
          let (answered, sound) =
            serve_all-IsSound overall_timeout (build_state hash c) (build_state hash c) es
              (build_state-IsSound hash c servable small window) h in
          (answered, sound, λ now. has_cutoff-InReach (world end) now sound.reach)
