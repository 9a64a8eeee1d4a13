-- ===== src/Proxy/Loop/Backoff.antt =====
-- How long `proxy_request` pauses before a retry.
use native.Mathlib.Nat.{mod-eq_of_lt, pow-le-pow_right, mul-le-mul_left}
use l7_proxy.Base.{
  ℕ, zero, suc, ◌+◌, ◌-◌, ◌*◌, ◌/◌, ◌%◌, ◌^◌, ◌≤◌, ◌<◌, ◌≡◌, refl, ap, length, ◌∙◌, List, [], ◌∷◌,
  Option, arith, u64_mod,
}
use l7_proxy.Base.Float.{Float}
use l7_proxy.Http.{Http, Response}
use l7_proxy.Errors.{ProxyError, Outcome}
use l7_proxy.Proxy.World.{Env, Run, Action, slept}
use l7_proxy.Proxy.Attempt.{Plan, exp_delay, total_delay}
use l7_proxy.Proxy.Request.{run_loop}
use l7_proxy.Proxy.Rounds.{
  backoff, before_attempt, Rounds, begin, skip, fails, Ends, gives_up, serves, panics,
}
use l7_proxy.Proxy.Loop.{run_loop-Ends}

-- The pauses, the latest first.
abbrev pub pauses : List Action → List ℕ
pauses [] = []
pauses (slept t ∷ log) = t ∷ pauses log
pauses (_ ∷ log) = pauses log

-- The pause after `k` others is at least the base, doubled `k` times, and at most half as much more.
abbrev pub Doubling : ℕ → List ℕ → Type 0
Doubling base [] = Unit
Doubling base (t ∷ ts) =
    let delay = base * 2 ^ length ts in (delay ≤ t) × (2 * t ≤ 3 * delay) × Doubling base ts

exp_delay_small :
    (base a : ℕ) → a ≤ 64 → base * 2 ^ (a - 1) < u64_mod → exp_delay base a ≡ base * 2 ^ (a - 1)
unfolding exp_delay
exp_delay_small base a h small =
    let e : (a - 1) % 64 ≡ a - 1 = mod-eq_of_lt (omega arith) in rw e (grind arith)

total_delay-bounds :
    (d jitter : ℕ)
    → jitter ≤ d / 2
    → 3 * d < 2 * u64_mod
    → (d ≤ total_delay d jitter) × (2 * total_delay d jitter ≤ 3 * d)
unfolding total_delay
total_delay-bounds d jitter h small =
    let e : (d + jitter) % u64_mod ≡ d + jitter = mod-eq_of_lt (omega arith) in
    rw e (omega arith, omega arith)

module _ {H : Http} {F : Type 0} (env : Env H F) (plan : Plan H) where
  -- The documented behaviour of `random_range(0..=most)`.
  abbrev pub InRange : Type 0
  InRange = (n most : ℕ) → env.random n most ≤ most

  -- A bound on the settings under which no pause overflows a `u64`.
  abbrev pub Fits : Type 0
  Fits =
      (plan.max_attempts ≤ 64) × (3 * (plan.backoff_base_ms * 2 ^ plan.max_attempts) < 2 * u64_mod)

  backoff-bounds :
      (a : ℕ)
      → InRange
      → Fits
      → a ≤ plan.max_attempts
      → (plan.backoff_base_ms * 2 ^ (a - 1) ≤ backoff env plan a)
        × (2 * backoff env plan a ≤ 3 * (plan.backoff_base_ms * 2 ^ (a - 1)))
  backoff-bounds a range (few, small) le =
      let base = plan.backoff_base_ms in
      let grows : base * 2 ^ (a - 1) ≤ base * 2 ^ plan.max_attempts =
        mul-le-mul_left base (pow-le-pow_right (omega arith) (omega arith)) in
      let e : exp_delay base a ≡ base * 2 ^ (a - 1) =
        exp_delay_small base a (omega arith) (omega arith) in
      rw e (total_delay-bounds (base * 2 ^ (a - 1)) _ (range a _) (omega arith))

  -- The pauses before the attempt after `a` others.
  abbrev Paused : ℕ → List Action → Type 0
  Paused n log = (length (pauses log) ≡ n) × Doubling plan.backoff_base_ms (pauses log)

  before_attempt-Paused :
      (a : ℕ) (log : List Action)
      → InRange
      → Fits
      → a ≤ plan.max_attempts
      → Paused (a - 1) log
      → Paused a (before_attempt env plan a log)
  before_attempt-Paused zero log range fit le (n, d) = (omega arith, d)
  before_attempt-Paused (suc a) log range fit le (n, d) =
      let base = plan.backoff_base_ms in
      let same : suc a - 1 ≡ a = omega arith in
      let (low, high) : (base * 2 ^ length (pauses log) ≤ backoff env plan (suc a))
          × (2 * backoff env plan (suc a) ≤ 3 * (base * 2 ^ length (pauses log))) =
        rw n (backoff-bounds (suc a) range fit le) in
      (ap suc (n ∙ same), (low, high, d))

  Rounds-Paused :
      {o a : ℕ} {l : Option ProxyError} {log : List Action}
      → InRange
      → Fits
      → Rounds env plan o a l log
      → Paused (a - 1) log
  Rounds-Paused range fit begin = (refl, tt)
  Rounds-Paused range fit (skip r) = Rounds-Paused range fit r
  Rounds-Paused range fit (fails {a = a} {log = log} r more s f) =
      let (n, d) =
        before_attempt-Paused a log range fit (omega arith) (Rounds-Paused range fit r) in
      (omega arith, d)

  Ends-Doubling :
      {log : List Action} {result : Outcome (Response H)}
      → InRange
      → Fits
      → Ends env plan log result
      → Doubling plan.backoff_base_ms (pauses log)
  Ends-Doubling range fit (gives_up {a = a} took r le) = (Rounds-Paused range fit r).1
  Ends-Doubling range fit (serves {a = a} {log = log} took r lt more s e fine) =
      (before_attempt-Paused a log range fit (omega arith) (Rounds-Paused range fit r)).1
  Ends-Doubling range fit (panics {a = a} {log = log} r lt more s e) =
      (before_attempt-Paused a log range fit (omega arith) (Rounds-Paused range fit r)).1

  -- From an empty log, when the random numbers are in the range asked for, at most 64 attempts are
  -- allowed, and one and a half times the base, doubled once for each of them, is below 2 ^ 64, the
  -- pause after `k` others is at least the base, doubled `k` times, and at most half as much more.
  pub run_loop-Doubling :
      ⦃f : Float F⦄ (r : Run F)
      → r.log ≡ []
      → InRange
      → Fits
      → Doubling plan.backoff_base_ms (pauses (run_loop env plan r).0.log)
  run_loop-Doubling r e range fit = Ends-Doubling range fit (run_loop-Ends env plan r e)
