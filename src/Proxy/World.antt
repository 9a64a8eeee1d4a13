-- ===== src/Proxy/World.antt =====
-- What a request in `proxy_request` reads and changes, and what is left to its environment.
use Prim.Native.String.{String}
use l7_proxy.Base.{ℕ, suc, List, ◌∷◌, Bool, Option, none, some, if◌then◌else◌, get_elem?, set}
use l7_proxy.Base.Float.{Float}
use l7_proxy.Http.{Http, Outgoing, Answer}
use l7_proxy.Balancer.{LoadBalancer}
use l7_proxy.Health.{HealthTracker, is_healthy, record_failure, record_success}
use l7_proxy.RetryBudget.{RetryBudget, record_request, allow_retry}

-- The shared state behind locks and atomics. The routes hold their balancers by address.
pub record World (F : Type 0) : Type 0 where
  pub health : HealthTracker
  pub budget : RetryBudget F
  pub balancers : List LoadBalancer

-- What a request makes happen outside: its calls of the metrics, of the client and of the timer.
pub data Action : Type 0 where
  -- `requests_total` by method, route and status
  requests_total : String → String → String → Action
  -- `request_duration_seconds` by method and route, in nanoseconds
  request_duration : String → String → ℕ → Action
  retries_total : String → Action
  -- by route and kind of error
  errors_total : String → String → Action
  -- a pause of so many milliseconds
  slept : ℕ → Action
  -- a request is handed to the upstream with this index
  started : ℕ → Action
  finished : ℕ → Action

-- The environment of one request.
pub record Env (H : Http) (F : Type 0) : Type 0 where
  -- The clock at the request's n-th reading, in nanoseconds.
  pub now : ℕ → ℕ
  -- What the client returns, or the timeout, for the n-th attempt.
  pub reply : ℕ → Outgoing H → Answer H
  -- `random_range(0..=most)` before the n-th attempt.
  pub random : ℕ → ℕ → ℕ
  -- What all other tasks do to the shared state while the request is at its n-th pause.
  pub across : ℕ → World F → World F
  -- The instant at which the n-th pause ends, in nanoseconds.
  pub woken : ℕ → ℕ
  -- `Uuid::new_v4`
  pub uuid : String
  -- `to_bytes` on the body.
  pub buffered : Option H.Body

-- A pause of a request: the world and the actions so far as it begins, and the instant at which it
-- ends. They are what is left of a request whose future is dropped there.
pub record Suspended (F : Type 0) : Type 0 where
  pub world : World F
  pub log : List Action
  pub until : ℕ

-- A request under way: the world, the actions so far, the latest first, how often the clock was
-- read and the task was suspended, and its pauses, the latest first.
pub record Run (F : Type 0) : Type 0 where
  pub world : World F
  pub log : List Action
  pub readings : ℕ
  pub pauses : ℕ
  pub suspended : List (Suspended F)

module _ {F : Type 0} where
  abbrev pub note : Action → Run F → Run F
  note a r = record r { log = a ∷ r.log }

  abbrev pub with_world : Run F → World F → Run F
  with_world r w = record r { world = w }

  -- The balancer at an address, under a method that changes it.
  abbrev pub update_balancer : (LoadBalancer → LoadBalancer) → ℕ → World F → World F
  update_balancer f address w = elim (get_elem? w.balancers address) [
    | none ↦ w
    | some b ↦ record w { balancers = set w.balancers address (f b) }
  ]

module _ {H : Http} {F : Type 0} (env : Env H F) where
  abbrev pub suspension : Run F → Suspended F
  suspension r = record { world = r.world; log = r.log; until = env.woken r.pauses }

  -- The task is suspended, and others run.
  abbrev pub pause : Run F → Run F
  pause r = record r {
    world = env.across r.pauses r.world;
    pauses = suc r.pauses;
    suspended = suspension r ∷ r.suspended;
  }

  -- So it is where the test holds.
  abbrev pub pause_if : Bool → Run F → Run F
  pause_if waits r = record r {
    world = if waits then env.across r.pauses r.world else r.world;
    pauses = if waits then suc r.pauses else r.pauses;
    suspended = if waits then suspension r ∷ r.suspended else r.suspended;
  }

  -- `state.health.is_healthy(upstream)`
  unfoldable pub ask_health : String → Run F → Bool × Run F
  ask_health upstream r =
      let (healthy, tracker) = is_healthy r.world.health upstream (env.now r.readings) in
      (healthy, record r { world = record r.world { health = tracker }; readings = suc r.readings })

  unfoldable pub note_failure : String → Run F → Run F
  note_failure upstream r =
      let tracker = record_failure r.world.health upstream (env.now r.readings) in
      record r { world = record r.world { health = tracker }; readings = suc r.readings }

  unfoldable pub note_success : String → Run F → Run F
  note_success upstream r = record r {
    world = record r.world { health = record_success r.world.health upstream };
  }

  unfoldable pub note_request : Run F → Run F
  note_request r =
      let budget = record_request r.world.budget (env.now r.readings) in
      record r { world = record r.world { budget = budget }; readings = suc r.readings }

  -- `state.retry_budget.allow_retry()`
  unfoldable pub ask_budget : ⦃f : Float F⦄ → Run F → Bool × Run F
  ask_budget r =
      let (granted, budget) =
        allow_retry r.world.budget (env.now r.readings) (env.now (suc r.readings)) in
      (
        granted,
        record r { world = record r.world { budget = budget }; readings = suc (suc r.readings) },
      )
