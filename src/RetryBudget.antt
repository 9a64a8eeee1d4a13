-- ===== src/RetryBudget.antt =====
-- src/retry_budget.rs: a sliding window over requests and retries. Instants are nanoseconds, and
-- `t > now - window` is written `now < t + window`, since an `Instant` may lie below the clock's zero.
pub mod Window
mod Tests
use l7_proxy.Base.{
  ℕ, ◌+◌, ◌++◌, List, [], ◌∷◌, Bool, true, false, leb, ltb, nat_beq, if◌then◌else◌, length, retain,
  from_secs,
}
use l7_proxy.Base.Float.{Float}

pub record RetryBudget (F : Type 0) : Type 0 where
  pub requests : List ℕ
  pub retries : List ℕ
  pub budget_percent : F
  pub window : ℕ

-- How many seconds before the clock's zero an `Instant` can lie, on Linux.
abbrev pub instant_reach_secs : ℕ
instant_reach_secs = 9_223_372_036_854_775_808

abbrev pub recent : ℕ → ℕ → ℕ → Bool
recent window now t = ltb now (t + window)

module _ {F : Type 0} where
  unfoldable pub new : F → ℕ → RetryBudget F
  new budget_percent window_secs = record {
    requests = [];
    retries = [];
    budget_percent = budget_percent;
    window = from_secs window_secs;
  }

  unfoldable pub record_request : RetryBudget F → ℕ → RetryBudget F
  record_request b now = record b { requests = b.requests ++ now ∷ [] }

  -- `(total as f64 * percent / 100.0).ceil() as usize`
  unfoldable pub max_retries : ⦃f : Float F⦄ → F → ℕ → ℕ
  max_retries ⦃f⦄ percent total =
      f.ceil_usize (f.div (f.mul (f.of_int total) percent) (f.of_int 100))

  -- Whether `Instant::now() - self.window` is an instant. It panics otherwise, and `allow_retry` is
  -- a model of the code only where it is one.
  unfoldable pub has_cutoff : RetryBudget F → ℕ → Bool
  has_cutoff b now = leb b.window (now + from_secs instant_reach_secs)

  -- The clock is read for the cutoff, at `now`, and again for the new entry, at `later`.
  unfoldable pub allow_retry : ⦃f : Float F⦄ → RetryBudget F → ℕ → ℕ → Bool × RetryBudget F
  allow_retry b now later =
      let requests = retain (recent b.window now) b.requests in
      let retries = retain (recent b.window now) b.retries in
      let pruned : RetryBudget F = record b { requests = requests; retries = retries } in
      if nat_beq (length requests) 0
      then (true, pruned)
      else if ltb (length retries) (max_retries b.budget_percent (length requests))
      then (true, record pruned { retries = retries ++ later ∷ [] })
      else (false, pruned)
