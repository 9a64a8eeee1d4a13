-- ===== src/Health/Tests.antt =====
-- A run of the tracker of src/health.rs, and examples of what is proved of it.
use l7_proxy.Base.{◌-◌, ◌≡◌, refl, List, [], ◌∷◌, arith, leb}
use l7_proxy.Health.{HealthTracker, is_healthy}
use l7_proxy.Health.Breaker.{view, IsValid}
use l7_proxy.Health.Steady.{is_healthy-Failing}
use l7_proxy.Health.Trace.{Event, failure, success, question, run, own_run, view-run}

abbrev tracker : HealthTracker
tracker = record { state = []; failure_threshold = 2; cooldown = 10 }

abbrev history : List Event
history = failure "a" 1 ∷ failure "b" 2 ∷ failure "a" 3 ∷ question "a" 14 ∷ success "b" ∷ []

tracker-IsValid : IsValid tracker
tracker-IsValid = record { bounded = omega arith; entries = λ u. tt }

view-run_example : view (run tracker history) "a" ≡ own_run 2 10 "a" (view tracker "a") history
view-run_example = view-run tracker "a" history tracker-IsValid

-- It fails twice, is asked for in between, and another upstream recovers.
abbrev failing : List Event
failing =
    question "a" 0
    ∷ failure "a" 1
    ∷ question "a" 5
    ∷ success "b"
    ∷ failure "a" 7
    ∷ question "a" 9
    ∷ []

is_healthy-Failing_example : (is_healthy (run tracker failing) "a" 12).0 ≡ leb 10 (12 - 7)
is_healthy-Failing_example =
    is_healthy-Failing tracker "a" failing 12 tracker-IsValid
      (
        λ same pos. absurd (omega arith),
        (λ same pos. omega arith, (refl, (λ same pos. omega arith, tt))),
      )
      (omega arith) (omega arith)
