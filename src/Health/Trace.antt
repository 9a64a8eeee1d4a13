-- ===== src/Health/Trace.antt =====
-- The tracker over a history of calls, from any number of tasks: the mutex puts them in an order.
use Prim.Native.String.{String}
use text.Mathlib.TextEquality.{eq_iff}
use l7_proxy.Base.{
  ℕ, suc, ◌+◌, ◌-◌, ◌≤◌, ◌≡◌, refl, sym, ap, ap₂, ◌∙◌, subst, ◌⊎◌, inl, inr, List, [], ◌∷◌, ◌++◌,
  true, arith, leb, if◌then◌else◌, length, ◌==◌, Bool-cases, string_key,
}
use l7_proxy.Health.{HealthTracker, record_failure, record_success, is_healthy}
use l7_proxy.Health.Breaker.{
  Status, closed, tripped, view, fail, serving, ask, IsValid, record_failure-IsValid,
  view-record_failure_self, view-record_failure, record_success-IsValid, view-record_success,
  is_healthy-IsValid, is_healthy_lem, SameSettings, record_failure-SameSettings,
  record_success-SameSettings, is_healthy-SameSettings,
}

pub data Event : Type 0 where
  failure : String → ℕ → Event
  success : String → Event
  question : String → ℕ → Event

unfoldable pub step : HealthTracker → Event → HealthTracker
step t (failure u now) = record_failure t u now
step t (success u) = record_success t u
step t (question u now) = (is_healthy t u now).1

unfoldable pub run : HealthTracker → List Event → HealthTracker
unfolding step
run t [] = t
run t (e ∷ es) = run (step t e) es

-- The history of one breaker: the events of its upstream alone.
abbrev pub own_step : ℕ → ℕ → String → Status → Event → Status
own_step threshold cooldown w s (failure u now) = if u == w then fail threshold now s else s
own_step threshold cooldown w s (success u) = if u == w then closed 0 else s
own_step threshold cooldown w s (question u now) = if u == w then ask cooldown now s else s

abbrev pub own_run : ℕ → ℕ → String → Status → List Event → Status
own_run threshold cooldown w s [] = s
own_run threshold cooldown w s (e ∷ es) =
    own_run threshold cooldown w (own_step threshold cooldown w s e) es

step-SameSettings : (t : HealthTracker) (e : Event) → SameSettings t (step t e)
unfolding step
step-SameSettings t (failure u now) = record_failure-SameSettings t u now
step-SameSettings t (success u) = record_success-SameSettings t u
step-SameSettings t (question u now) = is_healthy-SameSettings t u now

step-IsValid : (t : HealthTracker) (e : Event) → IsValid t → IsValid (step t e)
unfolding step
step-IsValid t (failure u now) v = record_failure-IsValid t u now v
step-IsValid t (success u) v = record_success-IsValid t u v
step-IsValid t (question u now) v = is_healthy-IsValid t u now v

-- Whatever the history, a valid tracker stays valid: no counter passes the threshold or overflows.
pub run-IsValid : (t : HealthTracker) (es : List Event) → IsValid t → IsValid (run t es)
unfolding run
run-IsValid t [] v = v
run-IsValid t (e ∷ es) v = run-IsValid (step t e) es (step-IsValid t e v)

pub run-append : (t : HealthTracker) (es fs : List Event) → run t (es ++ fs) ≡ run (run t es) fs
unfolding run
run-append t [] fs = refl
run-append t (e ∷ es) fs = run-append (step t e) es fs

pub run-SameSettings : (t : HealthTracker) (es : List Event) → SameSettings t (run t es)
unfolding run
run-SameSettings t [] = (refl, refl)
run-SameSettings t (e ∷ es) =
    let (th, cd) = step-SameSettings t e in
    let (th', cd') = run-SameSettings (step t e) es in (th' ∙ th, cd' ∙ cd)

-- Under the test for `w`, the view of `u` is that of `w`.
view_at :
    (t : HealthTracker) (u w : String) (f : Status → Status)
    → (if u == w then f (view t u) else view t w) ≡ (if u == w then f (view t w) else view t w)
view_at t u w f = elim (Bool-cases (u == w)) [
  | inl same ↦ rw same (ap (λ x. f (view t x)) ((eq_iff u w).0 same))
  | inr other ↦ rw other
]

view-step :
    (t : HealthTracker) (w : String) (e : Event)
    → IsValid t
    → view (step t e) w ≡ own_step t.failure_threshold t.cooldown w (view t w) e
unfolding step
view-step t w (failure u now) v =
    view-record_failure t u w now v ∙ view_at t u w (fail t.failure_threshold now)
view-step t w (success u) v = view-record_success t u w
view-step t w (question u now) v = (is_healthy_lem t u w now).1 ∙ view_at t u w (ask t.cooldown now)

-- After any history of calls of a valid tracker, by any tasks on any upstreams, the status of an upstream is what its
-- breaker makes of the events of that upstream alone.
pub view-run :
    (t : HealthTracker) (w : String) (es : List Event)
    → IsValid t
    → view (run t es) w ≡ own_run t.failure_threshold t.cooldown w (view t w) es
unfolding run
view-run t w [] v = refl
view-run t w (e ∷ es) v =
    let (th, cd) = step-SameSettings t e in
    view-run (step t e) w es (step-IsValid t e v)
    ∙ ap₂ (λ a b. own_run a b w (view (step t e) w) es) th cd
    ∙ ap (λ s. own_run t.failure_threshold t.cooldown w s es) (view-step t w e v)

-- Failures of one upstream in a row, at the given times.
unfoldable pub fail_all : HealthTracker → String → List ℕ → HealthTracker
fail_all t u [] = t
fail_all t u (now ∷ times) = fail_all (record_failure t u now) u times

-- Where a breaker stands after `k` failures in a row from `closed n`.
abbrev After : ℕ → ℕ → Status → Type 0
After threshold m s = (s ≡ closed m) ⊎ ((t : ℕ) × (s ≡ tripped t) × (threshold ≤ m))

After-fail :
    (threshold now m : ℕ) (s : Status)
    → After threshold m s
    → After threshold (suc m) (fail threshold now s)
After-fail threshold now m (closed k) a = ground arith
After-fail threshold now m (tripped k) a = inr (now, refl, ground arith)

fail_all-After :
    (threshold : ℕ) (t : HealthTracker) (u : String) (times : List ℕ) (m : ℕ)
    → IsValid t
    → t.failure_threshold ≡ threshold
    → After threshold m (view t u)
    → After threshold (m + length times) (view (fail_all t u times) u)
unfolding fail_all
fail_all-After threshold t u [] m v h a = let e : m + 0 ≡ m = omega arith in rw e a
fail_all-After threshold t u (now ∷ times) m v h a =
    let e : m + suc (length times) ≡ suc m + length times = omega arith in
    rw e (
      fail_all-After threshold (record_failure t u now) u times (suc m)
        (record_failure-IsValid t u now v) ((record_failure-SameSettings t u now).0 ∙ h)
        (subst (After threshold (suc m))
          (sym (view-record_failure_self t u now v ∙ ap (λ k. fail k now (view t u)) h))
          (After-fail threshold now m (view t u) a)))

fail_all-IsValid :
    (t : HealthTracker) (u : String) (times : List ℕ)
    → IsValid t
    → IsValid (fail_all t u times) × SameSettings t (fail_all t u times)
unfolding fail_all
fail_all-IsValid t u [] v = (v, (refl, refl))
fail_all-IsValid t u (now ∷ times) v =
    let (w, (th, cd)) =
      fail_all-IsValid (record_failure t u now) u times (record_failure-IsValid t u now v) in
    let (th', cd') = record_failure-SameSettings t u now in (w, (th ∙ th', cd ∙ cd'))

serving-fail :
    (threshold cooldown last now m : ℕ) (s : Status)
    → After threshold m s
    → serving cooldown now (fail threshold last s)
      ≡ (if leb threshold (m + 1) then leb cooldown (now - last) else true)
serving-fail threshold cooldown last now m (closed k) a = ground arith
serving-fail threshold cooldown last now m (tripped k) a = ground arith

-- With the tracker valid and the breaker closed after `n` failures, `k + 1` further failures in a row make the upstream
-- unhealthy exactly when they reach the threshold, and then until the cooldown that began with the
-- last of them is over.
pub is_healthy-fail_all :
    (t : HealthTracker) (u : String) (times : List ℕ) (last now n : ℕ)
    → IsValid t
    → view t u ≡ closed n
    → (is_healthy (record_failure (fail_all t u times) u last) u now).0 ≡ (
        if leb t.failure_threshold (n + length times + 1)
        then leb t.cooldown (now - last)
        else true)
is_healthy-fail_all t u times last now n v e =
    let (w, (th, cd)) = fail_all-IsValid t u times v in
    let f = fail_all t u times in
    (is_healthy_lem (record_failure f u last) u u now).0
    ∙ ap₂ (λ c s. serving c now s) ((record_failure-SameSettings f u last).1 ∙ cd)
        (view-record_failure_self f u last w ∙ ap (λ k. fail k last (view f u)) th)
    ∙ serving-fail t.failure_threshold t.cooldown last now (n + length times) (view f u)
        (fail_all-After t.failure_threshold t u times n v refl (inl e))
