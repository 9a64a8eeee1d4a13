-- ===== src/HealthCheck/Shared.antt =====
-- The probes of src/health_check.rs among the requests that ask for the same upstream.
use Prim.Native.String.{String}
use text.Mathlib.TextPositions.{eq_refl}
use l7_proxy.Base.{
  ℕ, zero, suc, ◌+◌, ◌-◌, ◌≤◌, ◌≡◌, ap, ◌∙◌, inl, inr, List, [], ◌∷◌, ◌++◌, false, arith, leb, ◌==◌,
  string_key, length, Bool-cases,
}
use l7_proxy.Health.{HealthTracker, is_healthy}
use l7_proxy.Health.Breaker.{IsValid}
use l7_proxy.Health.Trace.{Event, failure, success, question}
use l7_proxy.Health.Steady.{failures, last_failure, Failing, is_healthy-Failing}
use l7_proxy.HealthCheck.{Probe, answered, unreachable, is_success, rounds}
use l7_proxy.HealthCheck.Rounds.{result, event_of, round_events, all_events, rounds-eq-run}

failures-append :
    (w : String) (es fs : List Event) → failures w (es ++ fs) ≡ failures w es + failures w fs
failures-append w [] fs = omega arith
failures-append w (failure u now ∷ es) fs = omega (arith, failures-append w es fs)
failures-append w (success u ∷ es) fs = failures-append w es fs
failures-append w (question u now ∷ es) fs = failures-append w es fs

-- What is left of a history with failures only has failures only.
Failing-rest :
    (cooldown : ℕ) (w : String) (m last : ℕ) (es fs : List Event)
    → Failing cooldown w m last (es ++ fs)
    → (n : ℕ) × (at : ℕ) × Failing cooldown w n at fs
Failing-rest cooldown w m last [] fs f = (m, last, f)
Failing-rest cooldown w m last (failure u now ∷ es) fs f = elim (Bool-cases (u == w)) [
  | inl same ↦ Failing-rest cooldown w (suc m) now es fs (rw same at f)
  | inr other ↦ Failing-rest cooldown w m last es fs (rw other at f)
]
Failing-rest cooldown w m last (success u ∷ es) fs (other, f) =
    Failing-rest cooldown w m last es fs f
Failing-rest cooldown w m last (question u now ∷ es) fs (early, f) =
    Failing-rest cooldown w m last es fs f

Failing-front :
    (cooldown : ℕ) (w : String) (m last : ℕ) (es fs : List Event)
    → Failing cooldown w m last (es ++ fs)
    → Failing cooldown w m last es
Failing-front cooldown w m last [] fs f = tt
Failing-front cooldown w m last (failure u now ∷ es) fs f = elim (Bool-cases (u == w)) [
  | inl same ↦ rw same (Failing-front cooldown w (suc m) now es fs (rw same at f))
  | inr other ↦ rw other (Failing-front cooldown w m last es fs (rw other at f))
]
Failing-front cooldown w m last (success u ∷ es) fs (other, f) =
    (other, Failing-front cooldown w m last es fs f)
Failing-front cooldown w m last (question u now ∷ es) fs (early, f) =
    (early, Failing-front cooldown w m last es fs f)

module _ (path : String) (get : ℕ → String → Probe) (now : ℕ → ℕ) (others : ℕ → List Event)
    (w : String) (cooldown : ℕ) where
  -- A probe of `w` in such a history has failed.
  probe-Failing :
      (m last n : ℕ) (p : Probe) (es : List Event)
      → Failing cooldown w m last (event_of path get now others n w p ∷ es)
      → failures w (event_of path get now others n w p ∷ es) ≡ suc (failures w es)
  unfolding event_of
  probe-Failing m last n (answered status) es f = elim (Bool-cases (is_success status)) [
    | inl good ↦
        let (no_match, _) : ((w == w) ≡ false) × Failing cooldown w m last es = rw good at f in
        absurd (cc (eq_refl w))
    | inr bad ↦ rw (bad, eq_refl w) (omega arith)
  ]
  probe-Failing m last n unreachable es f = rw (eq_refl w) (omega arith)

  round-Failing :
      (m last n : ℕ) (before after : List String)
      → Failing cooldown w m last (round_events path get now others n (before ++ w ∷ after))
      → 1 ≤ failures w (round_events path get now others n (before ++ w ∷ after))
  unfolding round_events
  round-Failing m last n [] after f =
      let p = result path get now n w in
      let rest = round_events path get now others (suc n) after in
      let (m', last', g) =
        Failing-rest cooldown w m last (others n) (event_of path get now others n w p ∷ rest) f in
      omega (
        arith,
        probe-Failing m' last' n p rest g,
        failures-append w (others n) (event_of path get now others n w p ∷ rest),
      )
  round-Failing m last n (u ∷ before) after f =
      let e = event_of path get now others n u (result path get now n u) in
      let rest = round_events path get now others (suc n) (before ++ w ∷ after) in
      let (m', last', g) = Failing-rest cooldown w m last (others n) (e ∷ rest) f in
      let (m'', last'', h) = Failing-rest cooldown w m' last' (e ∷ []) rest g in
      omega (
        arith,
        round-Failing m'' last'' (suc n) before after h,
        failures-append w (others n) (e ∷ rest),
        failures-append w (e ∷ []) rest,
      )

  -- So there is at least one failure in each round.
  rounds-Failing :
      (m last k n : ℕ) (before after : List String)
      → Failing cooldown w m last (all_events path get now others k n (before ++ w ∷ after))
      → k ≤ failures w (all_events path get now others k n (before ++ w ∷ after))
  unfolding all_events
  rounds-Failing m last zero n before after f = omega arith
  rounds-Failing m last (suc k) n before after f =
      let us = before ++ w ∷ after in
      let first = round_events path get now others n us in
      let rest = all_events path get now others k (n + length us) us in
      let (m', last', g) = Failing-rest cooldown w m last first rest f in
      omega (
        arith,
        round-Failing m last n before after (Failing-front cooldown w m last first rest f),
        rounds-Failing m' last' k (n + length us) before after g,
        failures-append w first rest,
      )

module _ (path : String) (get : ℕ → String → Probe) (now : ℕ → ℕ) (others : ℕ → List Event)
    (w : String) (before after : List String) where
  -- All that the prober and the other tasks note and ask in `k` rounds from the n-th probe on.
  abbrev pub history : ℕ → ℕ → List Event
  history k n = all_events path get now others k n (before ++ w ∷ after)

  -- With a valid tracker, an upstream that stands in the list of the prober, of which no success is
  -- noted, by the prober or by a request, and which after its first failure is asked for only before
  -- the cooldown of its last failure is over, is unhealthy after as many rounds as the threshold
  -- says, or more, until the cooldown that began with its last failure is over, and not longer.
  pub is_healthy-rounds :
      (t : HealthTracker) (k n time : ℕ)
      → IsValid t
      → t.failure_threshold ≤ suc k
      → Failing t.cooldown w 0 0 (history (suc k) n)
      → (is_healthy (rounds path get now others (suc k) n t (before ++ w ∷ after)) w time).0
        ≡ leb t.cooldown (time - last_failure w 0 (history (suc k) n))
  is_healthy-rounds t k n time v le f =
      let many = rounds-Failing path get now others w t.cooldown 0 0 (suc k) n before after f in
      ap (λ x. (is_healthy x w time).0)
        (rounds-eq-run path get now others (suc k) n t (before ++ w ∷ after))
      ∙ is_healthy-Failing t w (history (suc k) n) time v f (omega (arith, many))
          (omega (arith, many))
