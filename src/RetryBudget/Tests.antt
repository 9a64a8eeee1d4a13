-- ===== src/RetryBudget/Tests.antt =====
-- A run of the budget of src/retry_budget.rs, and examples of what is proved of it.
use l7_proxy.Base.{ℕ, ◌≡◌, List, [], ◌∷◌, arith, from_secs}
use l7_proxy.Base.Float.{whole}
use l7_proxy.RetryBudget.{new}
use l7_proxy.RetryBudget.Window.{Call, request, retry, run, spec, run-new}

-- Calls of a budget of 50 percent over 10 seconds, with the clock in nanoseconds.
abbrev calls : List Call
calls =
    request 1
    ∷ request 2
    ∷ retry 3 3
    ∷ retry 4 5
    ∷ request 10_000_000_003
    ∷ retry 10_000_000_004 10_000_000_004
    ∷ retry 30_000_000_000 30_000_000_001
    ∷ []

run-new_example : run {F = ℕ} (new 50 10) calls ≡ spec {F = ℕ} 50 (from_secs 10) [] [] calls
run-new_example = run-new 50 10 calls (
  omega arith,
  (
    omega arith,
    (
      omega arith,
      omega arith,
      (
        omega arith,
        omega arith,
        (omega arith, (omega arith, omega arith, (omega arith, omega arith, tt))),
      ),
    ),
  ),
)
