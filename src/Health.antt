-- ===== src/Health.antt =====
-- src/health.rs: passive health of the upstreams. The map behind the mutex is a value, each method
-- runs under the lock, and `Instant::now()` is the argument `now`, in nanoseconds.
pub mod Breaker
pub mod Trace
pub mod Steady
mod Tests
use Prim.Native.String.{String}
use l7_proxy.Base.{
  ℕ, ◌+◌, ◌-◌, ◌%◌, List, [], Bool, true, false, Option, none, some, leb, if◌then◌else◌, u32_mod,
  string_key,
}
use l7_proxy.Base.Map.{lookup, insert}

pub record UpstreamHealth : Type 0 where
  pub consecutive_failures : ℕ
  pub marked_unhealthy_at : Option ℕ

pub record HealthTracker : Type 0 where
  pub state : List (String × UpstreamHealth)
  pub failure_threshold : ℕ
  pub cooldown : ℕ

unfoldable pub new : ℕ → ℕ → HealthTracker
new failure_threshold cooldown = record {
  state = [];
  failure_threshold = failure_threshold;
  cooldown = cooldown;
}

abbrev pub fresh : UpstreamHealth
fresh = record { consecutive_failures = 0; marked_unhealthy_at = none }

-- `or_insert`
abbrev or_fresh : Option UpstreamHealth → UpstreamHealth
or_fresh none = fresh
or_fresh (some e) = e

-- The body of `record_failure` on the upstream's entry; the `u32` counter wraps.
unfoldable pub fail_entry : ℕ → ℕ → UpstreamHealth → UpstreamHealth
fail_entry threshold now e =
    let failures = (e.consecutive_failures + 1) % u32_mod in
    if leb threshold failures
    then record e { consecutive_failures = threshold; marked_unhealthy_at = some now }
    else record e { consecutive_failures = failures }

unfoldable pub record_failure : HealthTracker → String → ℕ → HealthTracker
unfolding fail_entry
record_failure t upstream now = record t {
  state =
      insert upstream (fail_entry t.failure_threshold now (or_fresh (lookup upstream t.state)))
        t.state;
}

abbrev reset_if : Option UpstreamHealth → HealthTracker → String → HealthTracker
reset_if none t upstream = t
reset_if (some e) t upstream = record t { state = insert upstream fresh t.state }

unfoldable pub record_success : HealthTracker → String → HealthTracker
record_success t upstream = reset_if (lookup upstream t.state) t upstream

-- `marked_at.elapsed()` saturates at zero.
unfoldable pub probe : HealthTracker → String → ℕ → Option ℕ → Bool × HealthTracker
probe t upstream now none = (true, t)
probe t upstream now (some marked_at) =
    if leb t.cooldown (now - marked_at)
    then (true, record t { state = insert upstream fresh t.state })
    else (false, t)

-- The answer, and the tracker after the call: an expired cooldown resets the entry.
unfoldable pub is_healthy : HealthTracker → String → ℕ → Bool × HealthTracker
unfolding probe
is_healthy t upstream now = elim (lookup upstream t.state) [
  | none ↦ (true, t)
  | some e ↦ probe t upstream now e.marked_unhealthy_at
]
