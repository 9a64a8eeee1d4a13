-- ===== src/Proxy/Access/Segments.antt =====
-- That a request of src/proxy.rs only makes accesses to the shared state, from each pause to the next.
use Prim.Native.String.{String}
use l7_proxy.Base.{
  ℕ, suc, ◌≡◌, refl, ap, sym, subst, inl, inr, List, [], ◌∷◌, Bool, true, false, All, All-imp,
  length, Option-cases,
}
use l7_proxy.Base.Float.{Float}
use l7_proxy.Http.{Http, Request, Response}
use l7_proxy.Errors.{Outcome, ok, err, panicked}
use l7_proxy.Config.{ServerConfig}
use l7_proxy.Router.{Route, Router, match_route}
use l7_proxy.Proxy.World.{
  World, Env, Run, Suspended, pause, pause_if, ask_health, ask_budget, note_failure, note_success,
  note_request,
}
use l7_proxy.Proxy.Request.{proxy_request}
use l7_proxy.Proxy.Rule.{Rule, Ended}
use l7_proxy.Proxy.Rule.Requests.{proxy_request-Ended, proxy_request-unmatched}
use l7_proxy.Proxy.Serving.{Serves}
use l7_proxy.Proxy.Access.{
  Accesses, unchanged, then_access, asks, fails, succeeds, requests, retries, starts, returns,
  chooses, Accesses-trans, Accesses-Serves,
}

module _ {H : Http} {F : Type 0} ⦃f : Float F⦄ (hash : String → ℕ) (env : Env H F)
    (w : World F) where
  -- The shared state that a request goes on with, after these pauses, the latest first.
  abbrev pub resumed : List (Suspended F) → World F
  resumed [] = w
  resumed (s ∷ earlier) = env.across (length earlier) s.world

  -- From each pause to the next the request has only made accesses.
  abbrev pub Segments : List (Suspended F) → Type 0
  Segments [] = Unit
  Segments (s ∷ earlier) = Accesses hash (resumed earlier) s.world × Segments earlier

  -- And since the last one.
  abbrev Stretch : Run F → Type 0
  Stretch r =
      (r.pauses ≡ length r.suspended)
      × Segments r.suspended
      × Accesses hash (resumed r.suspended) r.world

  pause-Stretch : (r : Run F) → Stretch r → Stretch (pause env r)
  pause-Stretch r (count, before, last) = (
    ap suc count,
    (last, before),
    subst (λ k. Accesses hash (env.across (length r.suspended) r.world) (env.across k r.world))
        (sym count) unchanged,
  )

  pause_if-Stretch : (waits : Bool) (r : Run F) → Stretch r → Stretch (pause_if env waits r)
  pause_if-Stretch true r h = pause-Stretch r h
  pause_if-Stretch false r h = h

  Stretch-Rule : (address : ℕ) → Rule hash env address Stretch (λ index. Stretch) Stretch
  unfolding ask_health note_failure note_success note_request ask_budget
  Stretch-Rule address = record {
    asked = λ r u (count, before, last). (count, before, then_access last (asks r.world u _));
    failed = λ r u (count, before, last). (count, before, then_access last (fails r.world u _));
    succeeded = λ r u (count, before, last). (count, before, then_access last (succeeds r.world u));
    requested = λ r (count, before, last). (count, before, then_access last (requests r.world _));
    granted = λ r (count, before, last). (count, before, then_access last (retries r.world _ _));
    chosen = λ r n key b e (count, before, last).
        (count, before, then_access last (chooses r.world address n key b e));
    told = λ r a quiet h. h;
    counted = λ r method route status took h. h;
    slept = λ r h. pause-Stretch r h;
    started = λ r index (count, before, last).
        (count, before, then_access last (starts r.world index address));
    done = λ r index waits h.
        let (count, before, last) = pause_if-Stretch waits r h in
        (count, before, then_access last (returns _ index address));
  }

  Ended-Stretch :
      (address : ℕ) (r : Run F) (result : Outcome (Response H))
      → Ended (Stretch-Rule address) (r, result)
      → Stretch r
  Ended-Stretch address r (ok resp) h = h
  Ended-Stretch address r (err e) (inl h) = h
  Ended-Stretch address r (err e) (inr h) = h
  Ended-Stretch address r panicked (inl h) = h
  Ended-Stretch address r panicked (inr (index, h)) = h

  -- When the others only make accesses, all of it is accesses.
  resumed-Accesses :
      ((n : ℕ) (v : World F) → Accesses hash v (env.across n v))
      → (pauses : List (Suspended F)) → Segments pauses
      → Accesses hash w (resumed pauses) × All (λ s. Accesses hash w s.world) pauses
  resumed-Accesses others [] h = (unchanged, tt)
  resumed-Accesses others (s ∷ earlier) (last, before) =
      let (reached, left) = resumed-Accesses others earlier before in
      let here = Accesses-trans hash reached last in
      (Accesses-trans hash here (others (length earlier) s.world), (here, left))

module _ {H : Http} {F A : Type 0} ⦃f : Float F⦄ (hash : String → ℕ) (ip_text : A → String)
    (env : Env H F) where
  -- Whatever the other tasks do, what a request itself does to the shared state are accesses, from its
  -- start to its first pause, from each pause to the next, and from the last one to its end, on every
  -- path through it.
  pub proxy_request-Segments :
      (server : ServerConfig F) (router : Router) (w : World F) (req : Request H A)
      → let r = (proxy_request hash ip_text env server router w req).0 in
        Segments hash env w r.suspended × Accesses hash (resumed hash env w r.suspended) r.world
  proxy_request-Segments server router w req =
      let (r, result) = proxy_request hash ip_text env server router w req in
      elim (Option-cases (match_route router req.path)) [
        | inl missed ↦
            rw (proxy_request-unmatched hash ip_text env server req router w missed) (tt, unchanged)
        | inr (route, matched) ↦
            let (count, before, last) = Ended-Stretch hash env w route.balancer r result (
              proxy_request-Ended hash ip_text env server req route
                (Stretch-Rule hash env w route.balancer) router w matched (refl, tt, unchanged)) in
            (before, last)
      ]

  -- When the other tasks change the shared state only by accesses, so does a request, on every path
  -- through it and up to each of its pauses: what is asked of the other requests is what each request
  -- does itself. So the balancers of any routes that are in the store and ready before it are so
  -- after it, and where its future is dropped.
  pub proxy_request-Accesses :
      (server : ServerConfig F) (router : Router) (w : World F) (req : Request H A)
      → ((n : ℕ) (v : World F) → Accesses hash v (env.across n v))
      → let r = (proxy_request hash ip_text env server router w req).0 in
        Accesses hash w r.world
        × All (λ s. Accesses hash w s.world) r.suspended
        × ((routes : List Route)
            → Serves routes w
            → Serves routes r.world × All (λ s. Serves routes s.world) r.suspended)
  proxy_request-Accesses server router w req others =
      let r = (proxy_request hash ip_text env server router w req).0 in
      let (before, last) = proxy_request-Segments server router w req in
      let (reached, left) = resumed-Accesses hash env w others r.suspended before in
      let made = Accesses-trans hash reached last in
      (
        made,
        left,
        λ routes serves. (
          Accesses-Serves hash routes made serves,
          All-imp r.suspended (λ s there. Accesses-Serves hash routes there serves) left,
        ),
      )
