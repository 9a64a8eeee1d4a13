-- ===== src/Proxy/Access/Interleaved.antt =====
-- Any number of requests of src/proxy.rs at once, with their segments between pauses in any order, each
-- on the shared state that the one before has left.
use Prim.Native.String.{String}
use l7_proxy.Base.{ℕ, ◌≤◌, from_secs, ◌≡◌, subst, sym, List, [], ◌∷◌, ◌++◌}
use l7_proxy.Base.Float.{Float}
use l7_proxy.Http.{Http, HeaderLaws, Request}
use l7_proxy.Config.{ServerConfig}
use l7_proxy.Health.Breaker.{IsValid}
use l7_proxy.RetryBudget.{instant_reach_secs}
use l7_proxy.Router.{Route, Router}
use l7_proxy.Router.Longest.{match_route-In}
use l7_proxy.Proxy.World.{World, Env, Run, Suspended}
use l7_proxy.Proxy.Request.{proxy_request}
use l7_proxy.Proxy.Request.Total.{IsCalm, Sendable, proxy_request_total}
use l7_proxy.Proxy.Serving.{Serves}
use l7_proxy.Proxy.Access.{
  Access, Accesses, unchanged, then_access, SameLimits, Accesses-trans, Accesses-Serves,
  Accesses-SameLimits, Accesses-IsValid, InReach, InReach-SameLimits, AllSubtract,
  Accesses-AllSubtract,
}
use l7_proxy.Proxy.Access.Segments.{
  resumed, Segments, proxy_request-Segments, proxy_request-Accesses,
}

-- A request, with the snapshots that it has loaded, its environment, and the shared state at its start.
pub record Task (H : Http) (F A : Type 0) : Type 0 where
  pub env : Env H F
  pub server : ServerConfig F
  pub router : Router
  pub begun : World F
  pub req : Request H A

module _ (H : Http) {F A : Type 0} ⦃f : Float F⦄ (hash : String → ℕ) (ip_text : A → String) where
  abbrev pub run_of : Task H F A → Run F
  run_of t = (proxy_request hash ip_text t.env t.server t.router t.begun t.req).0

  -- The state with which a task goes on after these pauses.
  abbrev pub goes_on : Task H F A → List (Suspended F) → World F
  goes_on t pauses = resumed hash t.env t.begun pauses

  -- One segment of a task: to a pause, from its start or the pause before, or to its end.
  pub data Moves (t : Task H F A) : World F → World F → Type 0 where
    pauses :
        (later : List (Suspended F)) (s : Suspended F) (earlier : List (Suspended F))
        → (run_of t).suspended ≡ later ++ s ∷ earlier
        → Moves t (goes_on t earlier) s.world
    ends : Moves t (goes_on t (run_of t).suspended) (run_of t).world

  -- The shared states that come about from one at the start. A task moves on the state that there is,
  -- so what its environment does in a pause is what the others have done; and the prober and reloads
  -- make accesses of their own. A future that is dropped is a task that moves no more.
  pub data Reached (start : World F) : World F → Type 0 where
    starts : Reached start start
    moves : {w v : World F} (t : Task H F A) → Reached start w → Moves t w v → Reached start v
    other : {w v : World F} → Reached start w → Access hash w v → Reached start v

  Segments-at :
      (t : Task H F A) (later : List (Suspended F)) (s : Suspended F) (earlier : List (Suspended F))
      → Segments hash t.env t.begun (later ++ s ∷ earlier)
      → Accesses hash (goes_on t earlier) s.world
  Segments-at t [] s earlier (last, before) = last
  Segments-at t (p ∷ later) s earlier (last, before) = Segments-at t later s earlier before

  Moves-Accesses : (t : Task H F A) {w v : World F} → Moves t w v → Accesses hash w v
  Moves-Accesses t (pauses later s earlier e) = Segments-at t later s earlier (
      subst (Segments hash t.env t.begun) e
        (proxy_request-Segments hash ip_text t.env t.server t.router t.begun t.req).0)
  Moves-Accesses t ends =
      (proxy_request-Segments hash ip_text t.env t.server t.router t.begun t.req).1

  Reached-Accesses : {start w : World F} → Reached start w → Accesses hash start w
  Reached-Accesses starts = unchanged
  Reached-Accesses (moves t r m) = Accesses-trans hash (Reached-Accesses r) (Moves-Accesses t m)
  Reached-Accesses (other r a) = then_access (Reached-Accesses r) a

  -- A request whose pauses others fill with accesses, and that goes on from its first one in a state
  -- that was reached by accesses from one where its routes were ready.
  answered-from :
      (start w : World F) (t : Task H F A)
      → HeaderLaws H
      → Accesses hash start w
      → t.env.across 0 t.begun ≡ w
      → ((n : ℕ) (v : World F) → Accesses hash v (t.env.across n v))
      → Serves t.router.routes start
      → InReach start
      → Sendable hash ip_text t.env t.req
      → IsCalm (proxy_request hash ip_text t.env t.server t.router t.begun t.req).1
        × ((made : Accesses hash t.begun (run_of t).world) × AllSubtract hash made)
  answered-from start w t laws made here across serves reach sends =
      let (work, _, _) =
        proxy_request-Accesses hash ip_text t.env t.server t.router t.begun t.req across in
      let others = subst (Accesses hash t.begun) here (across 0 t.begun) in
      let begun : InReach t.begun =
        subst (λ n. n ≤ from_secs instant_reach_secs) (Accesses-SameLimits hash others).window
          (InReach-SameLimits (Accesses-SameLimits hash made) reach) in
      (
        proxy_request_total hash ip_text t.env t.server t.router t.begun t.req laws
            (λ route matched.
              subst (Serves t.router.routes) (sym here)
                (Accesses-Serves hash t.router.routes made serves) route
                (match_route-In t.router t.req.path matched))
            sends,
        (work, Accesses-AllSubtract hash work begun),
      )

  -- In every state that any number of requests come to, with their segments in any order and other
  -- accesses between them, the balancers of all routes that were in the store and ready at the start
  -- are so, no health counter exceeds the threshold if none did, and the settings of the tracker and
  -- of the budget are those of the start. A request that goes on from its first pause in such a
  -- state, and during whose pauses others change the shared state only by accesses, is answered, with
  -- a response or one of the two errors of an upstream, and not by a panic; and in what it and the
  -- others do until then, the budget is only asked where the subtraction of the window from the
  -- clock does not panic. This is said of a request whose routes were ready at the start, when the
  -- budget's window is at most 2 ^ 63 seconds, header maps and values behave as documented, and the
  -- request id and the text of the client's address are of visible ASCII characters.
  pub Reached_sound :
      (start w : World F)
      → Reached start w
      → ((routes : List Route) → Serves routes start → Serves routes w)
        × (IsValid start.health → IsValid w.health)
        × SameLimits start w
        × ((t : Task H F A)
            → HeaderLaws H
            → t.env.across 0 t.begun ≡ w
            → ((n : ℕ) (v : World F) → Accesses hash v (t.env.across n v))
            → Serves t.router.routes start
            → InReach start
            → Sendable hash ip_text t.env t.req
            → IsCalm (proxy_request hash ip_text t.env t.server t.router t.begun t.req).1
              × ((made : Accesses hash t.begun (run_of t).world) × AllSubtract hash made))
  Reached_sound start w r =
      let made = Reached-Accesses r in
      (
        λ routes serves. Accesses-Serves hash routes made serves,
        Accesses-IsValid hash made,
        Accesses-SameLimits hash made,
        λ t laws here across serves reach sends.
            answered-from start w t laws made here across serves reach sends,
      )
