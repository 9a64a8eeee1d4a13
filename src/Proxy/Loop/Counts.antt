-- ===== src/Proxy/Loop/Counts.antt =====
-- How often the loop of `proxy_request` calls an upstream, retries, and touches each metric.
use l7_proxy.Base.{
  ℕ, zero, suc, ◌+◌, ◌-◌, ◌≤◌, ◌<◌, ◌≡◌, refl, ap, List, [], ◌∷◌, Bool, true, false, Option, arith,
  if◌then◌else◌,
}
use l7_proxy.Base.Float.{Float}
use l7_proxy.Http.{Http, Response}
use l7_proxy.Errors.{ProxyError, Outcome, ok, err, panicked}
use l7_proxy.Proxy.World.{
  Env, Run, Action, requests_total, request_duration, retries_total, errors_total, slept, started,
  finished,
}
use l7_proxy.Proxy.Attempt.{Plan}
use l7_proxy.Proxy.Request.{run_loop}
use l7_proxy.Proxy.Rounds.{
  pool, before_attempt, Rounds, begin, skip, fails, Ends, gives_up, serves, panics,
}
use l7_proxy.Proxy.Loop.{run_loop-Ends}

abbrev pub tally : (Action → Bool) → List Action → ℕ
tally p [] = 0
tally p (a ∷ log) = let n = tally p log in if p a then suc n else n

abbrev pub is_start : Action → Bool
is_start (started i) = true
is_start _ = false

abbrev pub is_finish : Action → Bool
is_finish (finished i) = true
is_finish _ = false

abbrev pub is_retry : Action → Bool
is_retry (retries_total r) = true
is_retry _ = false

abbrev pub is_error : Action → Bool
is_error (errors_total r k) = true
is_error _ = false

abbrev pub is_request : Action → Bool
is_request (requests_total m r s) = true
is_request _ = false

abbrev pub is_duration : Action → Bool
is_duration (request_duration m r t) = true
is_duration _ = false

abbrev pub is_pause : Action → Bool
is_pause (slept t) = true
is_pause _ = false

-- The books of a request after `n` calls: with so many failures, responses and panics.
pub record Books (n failures done crashed : ℕ) (log : List Action) : Type 0 where
  pub starts : tally is_start log ≡ n
  pub finishes : tally is_finish log + crashed ≡ n
  pub retries : tally is_retry log ≡ n - 1
  pub pauses : tally is_pause log ≡ n - 1
  pub errors : tally is_error log ≡ failures
  pub requests : tally is_request log ≡ done
  pub durations : tally is_duration log ≡ done

module _ {H : Http} where
  -- The books at the end, by what the client is told.
  abbrev pub Closed : ℕ → List Action → Outcome (Response H) → Type 0
  Closed n log (ok resp) = (0 < n) × Books n (n - 1) 1 0 log
  Closed n log (err e) = Books n n 1 0 log
  Closed n log panicked = (0 < n) × Books n (n - 1) 0 1 log

module _ {H : Http} {F : Type 0} (env : Env H F) (plan : Plan H) where
  -- The books when the next call begins, after `a` others.
  abbrev Opened : ℕ → List Action → Type 0
  Opened a log =
      (tally is_start log ≡ a)
      × (tally is_finish log ≡ a)
      × (tally is_retry log ≡ a)
      × (tally is_pause log ≡ a)
      × (tally is_error log ≡ a)
      × (tally is_request log ≡ 0)
      × (tally is_duration log ≡ 0)

  before_attempt-Opened :
      (a : ℕ) (log : List Action) → Books a a 0 0 log → Opened a (before_attempt env plan a log)
  before_attempt-Opened zero log b =
      (b.starts, grind (arith, b), b.retries, b.pauses, b.errors, b.requests, b.durations)
  before_attempt-Opened (suc a) log b = (
    b.starts,
    grind (arith, b),
    grind (arith, b),
    grind (arith, b),
    b.errors,
    b.requests,
    b.durations,
  )

  Rounds-Books :
      {o a : ℕ} {l : Option ProxyError} {log : List Action}
      → Rounds env plan o a l log
      → Books a a 0 0 log × (a ≤ o) × (a ≤ plan.max_attempts)
  Rounds-Books begin = (
    record {
      starts = refl;
      finishes = refl;
      retries = refl;
      pauses = refl;
      errors = refl;
      requests = refl;
      durations = refl;
    },
    omega arith,
    omega arith,
  )
  Rounds-Books (skip r) = let (b, le, more) = Rounds-Books r in (b, omega arith, more)
  Rounds-Books (fails {a = a} {log = log} r more s f) =
      let (b, le, _) = Rounds-Books r in
      let (st, fi, re, pa, er, rq, du) = before_attempt-Opened a log b in
      (
        record {
          starts = omega arith;
          finishes = omega arith;
          retries = omega arith;
          pauses = omega arith;
          errors = omega arith;
          requests = omega arith;
          durations = omega arith;
        },
        omega arith,
        omega arith,
      )

  Ends-Closed :
      {log : List Action} {result : Outcome (Response H)}
      → Ends env plan log result
      → (n : ℕ) × (n ≤ pool env plan) × (n ≤ plan.max_attempts) × Closed n log result
  Ends-Closed (gives_up {a = a} took r le) =
      let (b, le', more) = Rounds-Books r in
      (
        a,
        omega arith,
        more,
        record {
          starts = b.starts;
          finishes = b.finishes;
          retries = b.retries;
          pauses = b.pauses;
          errors = b.errors;
          requests = ap suc b.requests;
          durations = ap suc b.durations;
        },
      )
  Ends-Closed (serves {a = a} {log = log} took r lt more s e fine) =
      let (b, le, _) = Rounds-Books r in
      let (st, fi, re, pa, er, rq, du) = before_attempt-Opened a log b in
      (
        suc a,
        omega arith,
        omega arith,
        (
          omega arith,
          record {
            starts = omega arith;
            finishes = omega arith;
            retries = omega arith;
            pauses = omega arith;
            errors = omega arith;
            requests = omega arith;
            durations = omega arith;
          },
        ),
      )
  Ends-Closed (panics {a = a} {log = log} r lt more s e) =
      let (b, le, _) = Rounds-Books r in
      let (st, fi, re, pa, er, rq, du) = before_attempt-Opened a log b in
      (
        suc a,
        omega arith,
        omega arith,
        (
          omega arith,
          record {
            starts = omega arith;
            finishes = omega arith;
            retries = omega arith;
            pauses = omega arith;
            errors = omega arith;
            requests = omega arith;
            durations = omega arith;
          },
        ),
      )

  -- From an empty log, a request calls upstreams at most as often as there are upstreams and as the
  -- configuration allows. Every call returns, but the last one where it panics. There is one retry,
  -- and one pause, for each call but the first. There is one error for each call, but for the one
  -- whose response the client gets or that panics, and one request and one duration are counted
  -- unless the request panics.
  pub run_loop-Closed :
      ⦃f : Float F⦄ (r : Run F)
      → r.log ≡ []
      → (n : ℕ) × (n ≤ pool env plan)
        × (n ≤ plan.max_attempts)
        × Closed n (run_loop env plan r).0.log (run_loop env plan r).1
  run_loop-Closed r e = Ends-Closed (run_loop-Ends env plan r e)
