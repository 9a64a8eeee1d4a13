-- ===== src/HealthCheck/Rounds.antt =====
-- What the probes make of each upstream's circuit breaker.
use Prim.Native.String.{String}
use Prim.Native.String
use text.Mathlib.TextPositions.{eq_refl}
use l7_proxy.Base.{
  ℕ, zero, suc, ◌+◌, ◌≡◌, refl, sym, ap, ◌∙◌, inl, inr, List, [], ◌∷◌, ◌++◌, Bool, true, false,
  arith, ◌==◌, string_key, if◌then◌else◌, length, Bool-cases, All,
}
use l7_proxy.Health.{HealthTracker}
use l7_proxy.Health.Breaker.{Status, closed, view, fail, IsValid}
use l7_proxy.Health.Trace.{
  Event, failure, success, question, step, run, own_step, own_run, run-IsValid, view-run,
  run-append, run-SameSettings,
}
use l7_proxy.HealthCheck.{Probe, answered, unreachable, is_success, note_probe, round, rounds}

-- A probe that counts as a failure.
abbrev pub is_failed : Probe → Bool
is_failed (answered status) = if is_success status then false else true
is_failed unreachable = true

-- The events of a list do not touch the upstream `w`.
abbrev pub Untouched : String → List Event → Type 0
Untouched w [] = Unit
Untouched w (failure u now ∷ es) = ((u == w) ≡ false) × Untouched w es
Untouched w (success u ∷ es) = ((u == w) ≡ false) × Untouched w es
Untouched w (question u now ∷ es) = ((u == w) ≡ false) × Untouched w es

abbrev pub Absent : String → List String → Type 0
Absent w us = All (λ u. (u == w) ≡ false) us

module _ (threshold cooldown : ℕ) (w : String) where
  own_run-append :
      (s : Status) (es fs : List Event)
      → own_run threshold cooldown w s (es ++ fs)
        ≡ own_run threshold cooldown w (own_run threshold cooldown w s es) fs
  own_run-append s [] fs = refl
  own_run-append s (e ∷ es) fs = own_run-append (own_step threshold cooldown w s e) es fs

  own_run-Untouched :
      (s : Status) (es : List Event) → Untouched w es → own_run threshold cooldown w s es ≡ s
  own_run-Untouched s [] q = refl
  own_run-Untouched s (failure u now ∷ es) (no_match, q) = rw no_match (own_run-Untouched s es q)
  own_run-Untouched s (success u ∷ es) (no_match, q) = rw no_match (own_run-Untouched s es q)
  own_run-Untouched s (question u now ∷ es) (no_match, q) = rw no_match (own_run-Untouched s es q)

-- The specification of one probe, noted at a time.
abbrev pub noted : ℕ → ℕ → Probe → Status → Status
noted threshold at p s = if is_failed p then fail threshold at s else closed 0

module _ (path : String) (get : ℕ → String → Probe) (now : ℕ → ℕ) where
  -- The answer to the n-th probe, when `w` is the one that is probed.
  abbrev pub result : ℕ → String → Probe
  result n w = get n (String.◌++◌ w path)

  -- The specification of `k` rounds for the breaker of `w`, which stands at `place` in a list of
  -- `size` upstreams: one probe in each round.
  abbrev pub after_probes : ℕ → String → ℕ → ℕ → ℕ → ℕ → Status → Status
  after_probes threshold w size place zero n s = s
  after_probes threshold w size place (suc k) n s =
      after_probes threshold w size place k (n + size)
        (noted threshold (now (n + place)) (result (n + place) w) s)

module _ (path : String) (get : ℕ → String → Probe) (now : ℕ → ℕ) (others : ℕ → List Event) where
  unfoldable pub event_of : ℕ → String → Probe → Event
  event_of n w (answered status) = if is_success status then success w else failure w (now n)
  event_of n w unreachable = failure w (now n)

  note_probe_lem :
      (n : ℕ) (t : HealthTracker) (w : String) (p : Probe)
      → note_probe path get now others n t w p ≡ step t (event_of n w p)
  unfolding note_probe step event_of
  note_probe_lem n t w (answered status) = elim (Bool-cases (is_success status)) [
    | inl good ↦ rw good
    | inr bad ↦ rw bad
  ]
  note_probe_lem n t w unreachable = refl

  -- What happens to the tracker in a round, and in `k` rounds.
  unfoldable pub round_events : ℕ → List String → List Event
  round_events n [] = []
  round_events n (u ∷ us) =
      others n ++ (event_of n u (result path get now n u) ∷ round_events (suc n) us)

  unfoldable pub all_events : ℕ → ℕ → List String → List Event
  unfolding round_events
  all_events zero n us = []
  all_events (suc k) n us = round_events n us ++ all_events k (n + length us) us

  round-eq-run :
      (n : ℕ) (t : HealthTracker) (us : List String)
      → round path get now others n t us ≡ run t (round_events n us)
  unfolding round round_events run
  round-eq-run n t [] = refl
  round-eq-run n t (u ∷ us) =
      round-eq-run (suc n)
        (note_probe path get now others n (run t (others n)) u (result path get now n u)) us
      ∙ ap (λ x. run x (round_events (suc n) us))
          (note_probe_lem n (run t (others n)) u (result path get now n u))
      ∙ sym (
          run-append t (others n)
            (event_of n u (result path get now n u) ∷ round_events (suc n) us))

  pub rounds-eq-run :
      (k n : ℕ) (t : HealthTracker) (us : List String)
      → rounds path get now others k n t us ≡ run t (all_events k n us)
  unfolding rounds all_events
  rounds-eq-run zero n t us = unfold run in refl
  rounds-eq-run (suc k) n t us =
      rounds-eq-run k (n + length us) (round path get now others n t us) us
      ∙ ap (λ x. run x (all_events k (n + length us) us)) (round-eq-run n t us)
      ∙ sym (run-append t (round_events n us) (all_events k (n + length us) us))

  module _ (threshold cooldown : ℕ) (w : String) (quiet : (n : ℕ) → Untouched w (others n)) where
    abbrev own : Status → List Event → Status
    own = own_run threshold cooldown w

    -- The event of a probe of `u`, for the breaker of `w`.
    own_step-other :
        (n : ℕ) (s : Status) (u : String) (p : Probe)
        → (u == w) ≡ false
        → own_step threshold cooldown w s (event_of n u p) ≡ s
    unfolding event_of
    own_step-other n s u (answered status) no_match = elim (Bool-cases (is_success status)) [
      | inl good ↦ rw (good, no_match)
      | inr bad ↦ rw (bad, no_match)
    ]
    own_step-other n s u unreachable no_match = rw no_match

    own-round_events-Absent :
        (n : ℕ) (s : Status) (us : List String) → Absent w us → own s (round_events n us) ≡ s
    unfolding round_events
    own-round_events-Absent n s [] a = refl
    own-round_events-Absent n s (u ∷ us) (no_match, a) =
        own_run-append threshold cooldown w s (others n) _
        ∙ ap (λ x. own x (event_of n u (result path get now n u) ∷ round_events (suc n) us))
            (own_run-Untouched threshold cooldown w s (others n) (quiet n))
        ∙ ap (λ x. own x (round_events (suc n) us))
            (own_step-other n s u (result path get now n u) no_match)
        ∙ own-round_events-Absent (suc n) s us a

    own-round_events :
        (n : ℕ) (s : Status) (before after : List String)
        → Absent w before
        → Absent w after
        → own s (round_events n (before ++ w ∷ after))
          ≡ own_step threshold cooldown w s
              (event_of (n + length before) w (result path get now (n + length before) w))
    unfolding round_events
    own-round_events n s [] after b a =
        let e : n + 0 ≡ n = omega arith in
        rw e (
          own_run-append threshold cooldown w s (others n) _
          ∙ ap (λ x. own x (event_of n w (result path get now n w) ∷ round_events (suc n) after))
              (own_run-Untouched threshold cooldown w s (others n) (quiet n))
          ∙ own-round_events-Absent (suc n) _ after a)
    own-round_events n s (u ∷ before) after (no_match, b) a =
        let e : n + suc (length before) ≡ suc n + length before = omega arith in
        rw e (
          own_run-append threshold cooldown w s (others n) _
          ∙ ap
              (λ x. own x (
                event_of n u (result path get now n u)
                ∷ round_events (suc n) (before ++ w ∷ after)))
              (own_run-Untouched threshold cooldown w s (others n) (quiet n))
          ∙ ap (λ x. own x (round_events (suc n) (before ++ w ∷ after)))
              (own_step-other n s u (result path get now n u) no_match)
          ∙ own-round_events (suc n) s before after b a)

    own_step-noted :
        (n : ℕ) (s : Status) (p : Probe)
        → own_step threshold cooldown w s (event_of n w p) ≡ noted threshold (now n) p s
    unfolding event_of
    own_step-noted n s (answered status) = elim (Bool-cases (is_success status)) [
      | inl good ↦ rw (good, eq_refl w)
      | inr bad ↦ rw (bad, eq_refl w)
    ]
    own_step-noted n s unreachable = rw (eq_refl w)

    own-all_events :
        (before after : List String) (k n : ℕ) (s : Status)
        → Absent w before
        → Absent w after
        → own s (all_events k n (before ++ w ∷ after))
          ≡ after_probes path get now threshold w
              (length (before ++ w ∷ after))
              (length before)
              k
              n
              s
    unfolding all_events
    own-all_events before after zero n s b a = refl
    own-all_events before after (suc k) n s b a =
        let at = n + length before in
        let us = before ++ w ∷ after in
        own_run-append threshold cooldown w s (round_events n us) _
        ∙ ap (λ x. own x (all_events k (n + length us) us))
            (own-round_events n s before after b a ∙ own_step-noted at s (result path get now at w))
        ∙ own-all_events before after k (n + length us)
            (noted threshold (now at) (result path get now at w) s) b a

module _ (path : String) (get : ℕ → String → Probe) (now : ℕ → ℕ) (others : ℕ → List Event)
    (w : String) (before after : List String) where
  -- With a valid tracker, and an upstream that stands once in the list and that other tasks leave
  -- alone, each round is one probe: its breaker goes through the results of its own probes, whatever
  -- the other probes come to, and the tracker stays valid with the same cooldown.
  pub view-rounds :
      (k n : ℕ) (t : HealthTracker)
      → IsValid t
      → Absent w before
      → Absent w after
      → ((i : ℕ) → Untouched w (others i))
      → let t' = rounds path get now others k n t (before ++ w ∷ after) in
        (view t' w
          ≡ after_probes path get now t.failure_threshold w
              (length (before ++ w ∷ after))
              (length before)
              k
              n
              (view t w))
        × IsValid t'
        × (t'.cooldown ≡ t.cooldown)
  view-rounds k n t v b a quiet =
      let es = all_events path get now others k n (before ++ w ∷ after) in
      rw (rounds-eq-run path get now others k n t (before ++ w ∷ after)) (
        view-run t w es v
            ∙ own-all_events path get now others t.failure_threshold t.cooldown w quiet before after
                k n (view t w) b a,
        run-IsValid t es v,
        (run-SameSettings t es).1,
      )
