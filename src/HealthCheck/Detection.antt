-- ===== src/HealthCheck/Detection.antt =====
-- How fast the probes find an upstream that is down, and one that is up again.
use Prim.Native.String.{String}
use l7_proxy.Base.{
  ℕ, zero, suc, ◌+◌, ◌-◌, ◌*◌, ◌≤◌, ◌<◌, ◌≡◌, refl, ap, ap₂, ◌∙◌, subst, List, ◌∷◌, ◌++◌, true,
  false, arith, leb, length,
}
use l7_proxy.Health.{HealthTracker, is_healthy}
use l7_proxy.Health.Breaker.{Status, closed, tripped, view, serving, IsValid, is_healthy_lem}
use l7_proxy.Health.Trace.{Event}
use l7_proxy.HealthCheck.{Probe, rounds}
use l7_proxy.HealthCheck.Rounds.{
  is_failed, Untouched, Absent, noted, result, after_probes, view-rounds,
}

-- A breaker that is tripped, or has counted at least `m` failures.
abbrev Counted : ℕ → Status → Type 0
Counted m (closed n) = m ≤ n
Counted m (tripped t) = Unit

noted-Counted :
    (threshold at m : ℕ) (p : Probe) (s : Status)
    → is_failed p ≡ true
    → Counted m s
    → Counted (suc m) (noted threshold at p s)
noted-Counted threshold at m p (closed n) f c = rw f (ground arith)
noted-Counted threshold at m p (tripped t) f c = rw f tt

noted-trips :
    (threshold at m : ℕ) (p : Probe) (s : Status)
    → is_failed p ≡ true
    → threshold ≤ suc m
    → Counted m s
    → noted threshold at p s ≡ tripped at
noted-trips threshold at m p (closed n) f le c = rw f (ground arith)
noted-trips threshold at m p (tripped t) f le c = rw f refl

-- The number of the probe at a place of a list, in the round after `k` others from the n-th probe on.
abbrev pub number : ℕ → ℕ → ℕ → ℕ → ℕ
number size place n k = n + k * size + place

number-suc : (size place n k : ℕ) → number size place (n + size) k ≡ number size place n (suc k)
number-suc size place n k = grind arith

number-zero : (size place n : ℕ) → number size place n 0 ≡ n + place
number-zero size place n = omega arith

module _ (path : String) (get : ℕ → String → Probe) (now : ℕ → ℕ) (threshold : ℕ) (w : String)
    (size place : ℕ) where
  abbrev after : ℕ → ℕ → Status → Status
  after = after_probes path get now threshold w size place

  after-last :
      (k n : ℕ) (s : Status)
      → after (suc k) n s
        ≡ noted threshold
            (now (number size place n k))
            (result path get now (number size place n k) w)
            (after k n s)
  after-last zero n s = rw (number-zero size place n) refl
  after-last (suc k) n s =
      after-last k (n + size)
        (noted threshold (now (n + place)) (result path get now (n + place) w) s)
      ∙ rw (number-suc size place n k) refl

  after-Counted :
      (k n m : ℕ) (s : Status)
      → ((r : ℕ) → r < k → is_failed (result path get now (number size place n r) w) ≡ true)
      → Counted m s
      → Counted (m + k) (after k n s)
  after-Counted zero n m s f c = let e : m + 0 ≡ m = omega arith in rw e c
  after-Counted (suc k) n m s f c =
      let e : m + suc k ≡ suc m + k = omega arith in
      rw e (
        after-Counted k (n + size) (suc m) _
          (λ r h. rw (number-suc size place n r) (f (suc r) (omega arith)))
          (noted-Counted threshold (now (n + place)) m (result path get now (n + place) w) s
            (rw (number-zero size place n) at (f 0 (omega arith))) c))

  -- With the last probe answered, it is as new.
  after-resets :
      (k n : ℕ) (s : Status)
      → is_failed (result path get now (number size place n k) w) ≡ false
      → after (suc k) n s ≡ closed 0
  after-resets k n s good = after-last k n s ∙ rw good

  -- With the last `suc k` probes failed, and these enough for the threshold, the breaker is tripped.
  after-trips :
      (k n : ℕ) (s : Status)
      → threshold ≤ suc k
      → ((r : ℕ) → r < suc k → is_failed (result path get now (number size place n r) w) ≡ true)
      → after (suc k) n s ≡ tripped (now (number size place n k))
  after-trips k n s le f =
      after-last k n s
      ∙ noted-trips threshold (now (number size place n k)) k
          (result path get now (number size place n k) w) (after k n s) (f k (omega arith)) le
          (subst (λ m. Counted m (after k n s)) zero_add
            (after-Counted k n 0 s (λ r h. f r (omega arith)) (starts_counted s)))
    where
      zero_add : 0 + k ≡ k
      zero_add = omega arith

      starts_counted : (s : Status) → Counted 0 s
      starts_counted (closed c) = omega arith
      starts_counted (tripped t) = tt

module _ (path : String) (get : ℕ → String → Probe) (now : ℕ → ℕ) (others : ℕ → List Event)
    (w : String) (before behind : List String) (t : HealthTracker) (v : IsValid t)
    (b : Absent w before) (a : Absent w behind) (quiet : (i : ℕ) → Untouched w (others i)) where
  abbrev upstreams : List String
  upstreams = before ++ w ∷ behind

  -- The probe of `w` in the round after `k` others, from the n-th probe on.
  abbrev pub own_probe : ℕ → ℕ → ℕ
  own_probe = number (length upstreams) (length before)

  asked :
      (k n time : ℕ)
      → (is_healthy (rounds path get now others (suc k) n t upstreams) w time).0
        ≡ serving t.cooldown time (
            after_probes path get now t.failure_threshold w
              (length upstreams)
              (length before)
              (suc k)
              n
              (view t w))
  asked k n time =
      let (e, _, c) = view-rounds path get now others w before behind (suc k) n t v b a quiet in
      (is_healthy_lem (rounds path get now others (suc k) n t upstreams) w w time).0
      ∙ ap₂ (λ d s. serving d time s) c e

  -- With a valid tracker, an upstream that is probed once in each round, that no other task touches,
  -- and whose probes all fail, is unhealthy after as many rounds as the threshold says, or more: until
  -- the cooldown after its last probe is over, and healthy from then on, whatever its breaker was
  -- before and whatever the other probes come to.
  pub is_healthy-failed_rounds :
      (k n time : ℕ)
      → t.failure_threshold ≤ suc k
      → ((r : ℕ) → r < suc k → is_failed (result path get now (own_probe n r) w) ≡ true)
      → (is_healthy (rounds path get now others (suc k) n t upstreams) w time).0
        ≡ leb t.cooldown (time - now (own_probe n k))
  is_healthy-failed_rounds k n time le f =
      asked k n time
      ∙ ap (serving t.cooldown time) (
          after-trips path get now t.failure_threshold w (length upstreams) (length before) k n
            (view t w) le f)

  -- With a valid tracker, an upstream that is probed once in each round, that no other task touches,
  -- and whose probe succeeds in the last round is healthy at once, also in the middle of a cooldown.
  pub is_healthy-answered_round :
      (k n time : ℕ)
      → is_failed (result path get now (own_probe n k) w) ≡ false
      → (is_healthy (rounds path get now others (suc k) n t upstreams) w time).0 ≡ true
  is_healthy-answered_round k n time good =
      asked k n time
      ∙ ap (serving t.cooldown time) (
          after-resets path get now t.failure_threshold w (length upstreams) (length before) k n
            (view t w) good)
