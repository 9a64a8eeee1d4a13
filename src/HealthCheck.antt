-- ===== src/HealthCheck.antt =====
-- src/health_check.rs: the task that probes every upstream, round after round. The client is the
-- function `get`, which answers the n-th probe; `now` is the clock when the n-th failure is recorded,
-- and `others` is what all other tasks do to the tracker before the n-th probe is answered.
pub mod Rounds
pub mod Detection
pub mod Once
pub mod Shared
mod Tests
use Prim.Native.String.{String, ◌++◌}
use l7_proxy.Base.{
  ℕ, zero, suc, ◌+◌, List, [], ◌∷◌, Bool, ◌&&◌, Option, none, some, leb, ltb, ◌==◌, string_key,
  if◌then◌else◌, length, any,
}
use l7_proxy.Config.{RouteConfig, HealthCheckConfig, Config}
use l7_proxy.Health.{HealthTracker, record_success, record_failure}
use l7_proxy.Health.Trace.{Event, run}

-- What `client.get(&url).send()` comes to: a status, or an error.
pub data Probe : Type 0 where
  answered : ℕ → Probe
  unreachable : Probe

-- `StatusCode::is_success`
abbrev pub is_success : ℕ → Bool
is_success status = leb 200 status && ltb status 300

-- `HashSet::insert`, on a list that holds each text once. Nothing depends on its order.
unfoldable pub add_to_set : String → List String → List String
add_to_set u set = if any (λ w. w == u) set then set else u ∷ set

unfoldable pub add_upstreams : List String → List String → List String
add_upstreams set [] = set
add_upstreams set (u ∷ us) = add_upstreams (add_to_set u set) us

-- The two loops over the configuration.
unfoldable pub collect : List String → List RouteConfig → List String
collect set [] = set
collect set (r ∷ rs) = collect (add_upstreams set r.upstream) rs

module _ (path : String) (get : ℕ → String → Probe) (now : ℕ → ℕ) (others : ℕ → List Event) where
  -- The `match` on the answer of the n-th probe.
  unfoldable pub note_probe : ℕ → HealthTracker → String → Probe → HealthTracker
  note_probe n t upstream (answered status) =
      if is_success status then record_success t upstream else record_failure t upstream (now n)
  note_probe n t upstream unreachable = record_failure t upstream (now n)

  -- `for upstream in &upstreams`, from the n-th probe on.
  unfoldable pub round : ℕ → HealthTracker → List String → HealthTracker
  round n t [] = t
  round n t (u ∷ us) = round (suc n) (note_probe n (run t (others n)) u (get n (u ++ path))) us

  -- The first `k` turns of the endless loop, from the n-th probe on.
  unfoldable pub rounds : ℕ → ℕ → HealthTracker → List String → HealthTracker
  rounds zero n t us = t
  rounds (suc k) n t us = rounds k (n + length us) (round n t us) us

-- `spawn_active_health_checker`: what the task works with, if there is one.
unfoldable pub spawn_active_health_checker :
    {F : Type 0} → Config F → Option (HealthCheckConfig × List String)
spawn_active_health_checker c = elim c.server.health_check [
  | none ↦ none
  | some config ↦ some (config, collect [] c.routes)
]
