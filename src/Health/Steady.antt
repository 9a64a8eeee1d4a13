-- ===== src/Health/Steady.antt =====
-- An upstream that keeps failing while other tasks ask for it, over any history of src/health.rs.
use Prim.Native.String.{String}
use l7_proxy.Base.{
  ℕ, zero, suc, ◌+◌, ◌-◌, ◌≤◌, ◌<◌, ◌≡◌, refl, ap, ◌∙◌, subst, inl, inr, List, [], ◌∷◌, true, false,
  arith, leb, ◌==◌, string_key, if◌then◌else◌, Bool-cases,
}
use l7_proxy.Health.{HealthTracker, is_healthy}
use l7_proxy.Health.Breaker.{
  Status, closed, tripped, view, fail, ask, serving, IsValid, is_healthy_lem,
}
use l7_proxy.Health.Trace.{
  Event, failure, success, question, run, own_run, view-run, run-SameSettings,
}

-- How often `w` fails in a history, and when for the last time, if not at `last`.
abbrev pub failures : String → List Event → ℕ
failures w [] = 0
failures w (failure u now ∷ es) = (if u == w then 1 else 0) + failures w es
failures w (success u ∷ es) = failures w es
failures w (question u now ∷ es) = failures w es

abbrev pub last_failure : String → ℕ → List Event → ℕ
last_failure w last [] = last
last_failure w last (failure u now ∷ es) = last_failure w (if u == w then now else last) es
last_failure w last (success u ∷ es) = last_failure w last es
last_failure w last (question u now ∷ es) = last_failure w last es

-- No success of `w` is noted, and after `m` failures, if there was one, `w` is asked for only before
-- the cooldown that began with the last of them is over.
abbrev pub Failing : ℕ → String → ℕ → ℕ → List Event → Type 0
Failing cooldown w m last [] = Unit
Failing cooldown w m last (failure u now ∷ es) =
    if u == w then Failing cooldown w (suc m) now es else Failing cooldown w m last es
Failing cooldown w m last (success u ∷ es) = ((u == w) ≡ false) × Failing cooldown w m last es
Failing cooldown w m last (question u now ∷ es) =
    ((u == w) ≡ true → 0 < m → now - last < cooldown) × Failing cooldown w m last es

-- The breaker after `m` failures in a row, the last of them at `last`.
abbrev Struck : ℕ → ℕ → ℕ → Status → Type 0
Struck threshold m last (closed c) = (m ≤ c) × (0 < m → c < threshold)
Struck threshold m last (tripped t) = 0 < m → t ≡ last

fail-Struck :
    (threshold m last now : ℕ) (s : Status)
    → Struck threshold m last s
    → Struck threshold (suc m) now (fail threshold now s)
fail-Struck threshold m last now (closed c) (le, lt) = elim (Bool-cases (leb threshold (suc c))) [
  | inl trips ↦ rw trips (λ pos. refl)
  | inr not_yet ↦ rw not_yet (omega arith, λ pos. ground arith)
]
fail-Struck threshold m last now (tripped t) h = λ pos. refl

ask-Struck :
    (threshold cooldown m last now : ℕ) (s : Status)
    → (0 < m → now - last < cooldown)
    → Struck threshold m last s
    → Struck threshold m last (ask cooldown now s)
ask-Struck threshold cooldown m last now (closed c) early h = h
ask-Struck threshold cooldown zero last now (tripped t) early h =
    elim (Bool-cases (leb cooldown (now - t))) [
      | inl over ↦ rw over (omega arith, λ pos. absurd (omega arith))
      | inr still ↦ rw still (λ pos. absurd (omega arith))
    ]
ask-Struck threshold cooldown (suc m) last now (tripped t) early h =
    let at : t ≡ last = h (omega arith) in
    let within : now - last < cooldown = early (omega arith) in
    let still : leb cooldown (now - t) ≡ false = rw at (ground arith) in rw still (λ pos. at)

own_run-Struck :
    (threshold cooldown : ℕ) (w : String) (m last : ℕ) (s : Status) (es : List Event)
    → Failing cooldown w m last es
    → Struck threshold m last s
    → Struck threshold
        (m + failures w es)
        (last_failure w last es)
        (own_run threshold cooldown w s es)
own_run-Struck threshold cooldown w m last s [] f h = let e : m + 0 ≡ m = omega arith in rw e h
own_run-Struck threshold cooldown w m last s (failure u now ∷ es) f h = elim (Bool-cases (u == w)) [
  | inl same ↦
      let e : m + (1 + failures w es) ≡ suc m + failures w es = omega arith in
      rw (same, e)
        (own_run-Struck threshold cooldown w (suc m) now (fail threshold now s) es (rw same at f)
          (fail-Struck threshold m last now s h))
  | inr other ↦
      let e : m + (0 + failures w es) ≡ m + failures w es = omega arith in
      rw (other, e) (own_run-Struck threshold cooldown w m last s es (rw other at f) h)
]
own_run-Struck threshold cooldown w m last s (success u ∷ es) (other, f) h =
    rw other (own_run-Struck threshold cooldown w m last s es f h)
own_run-Struck threshold cooldown w m last s (question u now ∷ es) (early, f) h =
    elim (Bool-cases (u == w)) [
      | inl same ↦ rw same (
          own_run-Struck threshold cooldown w m last (ask cooldown now s) es f
            (ask-Struck threshold cooldown m last now s (early same) h))
      | inr other ↦ rw other (own_run-Struck threshold cooldown w m last s es f h)
    ]

Struck-zero : (threshold : ℕ) (s : Status) → Struck threshold 0 0 s
Struck-zero threshold (closed c) = (omega arith, λ pos. absurd (omega arith))
Struck-zero threshold (tripped t) = λ pos. absurd (omega arith)

serving-Struck :
    (threshold cooldown m last time : ℕ) (s : Status)
    → 0 < m
    → threshold ≤ m
    → Struck threshold m last s
    → serving cooldown time s ≡ leb cooldown (time - last)
serving-Struck threshold cooldown m last time (closed c) pos le (h, lt) =
    absurd (omega (arith, lt pos))
serving-Struck threshold cooldown m last time (tripped t) pos le h =
    ap (λ x. leb cooldown (time - x)) (h pos)

-- Over any history of a valid tracker, whatever happens to other upstreams and whatever was before:
-- an upstream that fails at least once, and as often as the threshold says, of which no success is
-- noted, and which after its first failure is asked for only before the cooldown of the last failure
-- is over, is unhealthy until the cooldown that began with its last failure is over, and not longer.
pub is_healthy-Failing :
    (t : HealthTracker) (w : String) (es : List Event) (time : ℕ)
    → IsValid t
    → Failing t.cooldown w 0 0 es
    → 0 < failures w es
    → t.failure_threshold ≤ failures w es
    → (is_healthy (run t es) w time).0 ≡ leb t.cooldown (time - last_failure w 0 es)
is_healthy-Failing t w es time v f pos le =
    let (th, cd) = run-SameSettings t es in
    let s = own_run t.failure_threshold t.cooldown w (view t w) es in
    let zero_add : 0 + failures w es ≡ failures w es = omega arith in
    let struck =
      subst (λ m. Struck t.failure_threshold m (last_failure w 0 es) s) zero_add
        (own_run-Struck t.failure_threshold t.cooldown w 0 0 (view t w) es f
          (Struck-zero t.failure_threshold (view t w))) in
    (is_healthy_lem (run t es) w w time).0
    ∙ ap (λ c. serving c time (view (run t es) w)) cd
    ∙ ap (serving t.cooldown time) (view-run t w es v)
    ∙ serving-Struck t.failure_threshold t.cooldown (failures w es) (last_failure w 0 es) time s pos
        le struck
