-- ===== src/Health/Breaker.antt =====
-- The tracker as a family of circuit breakers, one for each upstream.
use Prim.Native.String.{String}
use text.Mathlib.TextEquality.{eq_iff}
use text.Mathlib.TextPositions.{eq_refl}
use l7_proxy.Base.{
  ℕ, suc, ◌-◌, ◌≤◌, ◌<◌, ◌≡◌, refl, ap, ◌∙◌, subst, inl, inr, Bool, true, Option, none, some, arith,
  leb, if◌then◌else◌, u32_mod, ◌==◌, Bool-cases, Option-cases, string_key, sym,
}
use l7_proxy.Base.Map.{lookup, insert, lookup-insert_eq, lookup-insert_ne}
use l7_proxy.Health.{
  UpstreamHealth, HealthTracker, fresh, or_fresh, new, fail_entry, record_failure, record_success,
  probe, is_healthy,
}

-- `closed n` after `n` failures in a row, `tripped t` since the time `t`.
pub data Status : Type 0 where
  closed : ℕ → Status
  tripped : ℕ → Status

abbrev pub status_of : UpstreamHealth → Option ℕ → Status
status_of e none = closed e.consecutive_failures
status_of e (some t) = tripped t

abbrev pub status : Option UpstreamHealth → Status
status none = closed 0
status (some e) = status_of e e.marked_unhealthy_at

abbrev pub view : HealthTracker → String → Status
view t u = status (lookup u t.state)

-- The specification of the three operations.
abbrev pub fail : ℕ → ℕ → Status → Status
fail threshold now (closed n) = if leb threshold (suc n) then tripped now else closed (suc n)
fail threshold now (tripped t) = tripped now

abbrev pub serving : ℕ → ℕ → Status → Bool
serving cooldown now (closed n) = true
serving cooldown now (tripped t) = leb cooldown (now - t)

abbrev pub ask : ℕ → ℕ → Status → Status
ask cooldown now (closed n) = closed n
ask cooldown now (tripped t) = if leb cooldown (now - t) then closed 0 else tripped t

-- An entry of a tracker: the count stays within the threshold, and is at it while marked.
abbrev pub EntryIsValid : ℕ → UpstreamHealth → Option ℕ → Type 0
EntryIsValid threshold e none = e.consecutive_failures ≤ threshold
EntryIsValid threshold e (some t) = e.consecutive_failures ≡ threshold

abbrev pub OptionIsValid : ℕ → Option UpstreamHealth → Type 0
OptionIsValid threshold none = Unit
OptionIsValid threshold (some e) = EntryIsValid threshold e e.marked_unhealthy_at

pub record IsValid (t : HealthTracker) : Type 0 where
  pub bounded : suc t.failure_threshold < u32_mod
  pub entries : (u : String) → OptionIsValid t.failure_threshold (lookup u t.state)

pub new-IsValid :
    (threshold cooldown : ℕ) → suc threshold < u32_mod → IsValid (new threshold cooldown)
unfolding new
new-IsValid threshold cooldown h = record { bounded = h; entries = λ u. tt }

-- A write of one valid entry keeps the tracker valid.
insert-IsValid :
    (t : HealthTracker) (u : String) (e : UpstreamHealth)
    → EntryIsValid t.failure_threshold e e.marked_unhealthy_at
    → IsValid t
    → IsValid (record t { state = insert u e t.state })
insert-IsValid t u e h v = record {
  bounded = v.bounded;
  entries = λ w. elim (Bool-cases (u == w)) [
    | inl same ↦
        subst (OptionIsValid t.failure_threshold) (sym (lookup-insert_eq u w e t.state same)) h
    | inr other ↦
        subst (OptionIsValid t.failure_threshold) (sym (lookup-insert_ne u w e t.state other))
          (v.entries w)
  ];
}

-- And changes the view of one upstream.
view-insert :
    (t : HealthTracker) (u w : String) (e : UpstreamHealth)
    → view (record t { state = insert u e t.state }) w
      ≡ (if u == w then status (some e) else view t w)
view-insert t u w e = elim (Bool-cases (u == w)) [
  | inl same ↦ rw same (ap status (lookup-insert_eq u w e t.state same))
  | inr other ↦ rw other (ap status (lookup-insert_ne u w e t.state other))
]

-- The body of `record_failure` does what the specification says, with no overflow of the counter.
fail_entry_lem :
    (threshold now : ℕ) (o : Option UpstreamHealth)
    → suc threshold < u32_mod
    → OptionIsValid threshold o
    → let e = fail_entry threshold now (or_fresh o) in
      (status (some e) ≡ fail threshold now (status o))
      × EntryIsValid threshold e e.marked_unhealthy_at
unfolding fail_entry
fail_entry_lem threshold now none h v = ground arith
fail_entry_lem threshold now (some e) h v = ground arith

-- A status that does not change may be written as one that does.
view_same :
    (t : HealthTracker) (u w : String) (s : Status)
    → view t u ≡ s
    → view t w ≡ (if u == w then s else view t w)
view_same t u w s e = elim (Bool-cases (u == w)) [
  | inl same ↦ rw same (subst (λ x. view t x ≡ s) ((eq_iff u w).0 same) e)
  | inr other ↦ rw other
]

-- A recorded failure keeps the tracker valid and is a failure of that upstream's breaker alone.
pub record_failure-IsValid :
    (t : HealthTracker) (u : String) (now : ℕ) → IsValid t → IsValid (record_failure t u now)
unfolding record_failure
record_failure-IsValid t u now v =
    insert-IsValid t u _
      (fail_entry_lem t.failure_threshold now (lookup u t.state) v.bounded (v.entries u)).1 v

pub view-record_failure :
    (t : HealthTracker) (u w : String) (now : ℕ)
    → IsValid t
    → view (record_failure t u now) w
      ≡ (if u == w then fail t.failure_threshold now (view t u) else view t w)
unfolding record_failure
view-record_failure t u w now v =
    view-insert t u w _
    ∙ ap (λ s. if u == w then s else view t w)
        (fail_entry_lem t.failure_threshold now (lookup u t.state) v.bounded (v.entries u)).0

pub view-record_failure_self :
    (t : HealthTracker) (u : String) (now : ℕ)
    → IsValid t
    → view (record_failure t u now) u ≡ fail t.failure_threshold now (view t u)
view-record_failure_self t u now v =
    view-record_failure t u u now v
    ∙ ap (λ b. if b then fail t.failure_threshold now (view t u) else view t u) (eq_refl u)

pub record_success-IsValid :
    (t : HealthTracker) (u : String) → IsValid t → IsValid (record_success t u)
unfolding record_success
record_success-IsValid t u v = elim (Option-cases (lookup u t.state)) [
  | inl e ↦ rw e v
  | inr (h, e) ↦ rw e (insert-IsValid t u fresh (omega arith) v)
]

pub view-record_success :
    (t : HealthTracker) (u w : String)
    → view (record_success t u) w ≡ (if u == w then closed 0 else view t w)
unfolding record_success
view-record_success t u w = elim (Option-cases (lookup u t.state)) [
  | inl e ↦ rw e (view_same t u w (closed 0) (ap status e))
  | inr (h, e) ↦ rw e (view-insert t u w fresh)
]

-- The two cases of `is_healthy` on an entry that is there.
probe_lem :
    (t : HealthTracker) (u w : String) (now : ℕ) (e : UpstreamHealth)
    → lookup u t.state ≡ some e
    → (m : Option ℕ) → e.marked_unhealthy_at ≡ m
    → ((probe t u now m).0 ≡ serving t.cooldown now (status_of e m))
      × (view (probe t u now m).1 w
          ≡ (if u == w then ask t.cooldown now (status_of e m) else view t w))
unfolding probe
probe_lem t u w now e l none h = (refl, view_same t u w _ (ap status l ∙ ap (status_of e) h))
probe_lem t u w now e l (some at) h = elim (Bool-cases (leb t.cooldown (now - at))) [
  | inl over ↦ rw over (refl, view-insert t u w fresh)
  | inr still ↦ rw still (refl, view_same t u w _ (ap status l ∙ ap (status_of e) h))
]

probe-IsValid :
    (t : HealthTracker) (u : String) (now : ℕ) (m : Option ℕ)
    → IsValid t
    → IsValid (probe t u now m).1
unfolding probe
probe-IsValid t u now none v = v
probe-IsValid t u now (some at) v = elim (Bool-cases (leb t.cooldown (now - at))) [
  | inl over ↦ rw over (insert-IsValid t u fresh (omega arith) v)
  | inr still ↦ rw still v
]

-- The question answers by the breaker, and moves only the breaker of that upstream.
pub is_healthy_lem :
    (t : HealthTracker) (u w : String) (now : ℕ)
    → ((is_healthy t u now).0 ≡ serving t.cooldown now (view t u))
      × (view (is_healthy t u now).1 w
          ≡ (if u == w then ask t.cooldown now (view t u) else view t w))
unfolding is_healthy
is_healthy_lem t u w now = elim (Option-cases (lookup u t.state)) [
  | inl e ↦ rw (e, is_healthy) (refl, view_same t u w (closed 0) (ap status e))
  | inr (h, e) ↦ rw (e, is_healthy) (probe_lem t u w now h e h.marked_unhealthy_at refl)
]

pub is_healthy-IsValid :
    (t : HealthTracker) (u : String) (now : ℕ) → IsValid t → IsValid (is_healthy t u now).1
unfolding is_healthy
is_healthy-IsValid t u now v = elim (Option-cases (lookup u t.state)) [
  | inl e ↦ rw (e, is_healthy) v
  | inr (h, e) ↦ rw (e, is_healthy) (probe-IsValid t u now h.marked_unhealthy_at v)
]

-- No call changes the settings of the tracker.
abbrev pub SameSettings : HealthTracker → HealthTracker → Type 0
SameSettings t s = (s.failure_threshold ≡ t.failure_threshold) × (s.cooldown ≡ t.cooldown)

pub record_failure-SameSettings :
    (t : HealthTracker) (u : String) (now : ℕ) → SameSettings t (record_failure t u now)
unfolding record_failure
record_failure-SameSettings t u now = (refl, refl)

pub record_success-SameSettings :
    (t : HealthTracker) (u : String) → SameSettings t (record_success t u)
unfolding record_success
record_success-SameSettings t u = elim (Option-cases (lookup u t.state)) [
  | inl e ↦ rw e (refl, refl)
  | inr (h, e) ↦ rw e (refl, refl)
]

probe-SameSettings :
    (t : HealthTracker) (u : String) (now : ℕ) (m : Option ℕ) → SameSettings t (probe t u now m).1
unfolding probe
probe-SameSettings t u now none = (refl, refl)
probe-SameSettings t u now (some at) = elim (Bool-cases (leb t.cooldown (now - at))) [
  | inl over ↦ rw over (refl, refl)
  | inr still ↦ rw still (refl, refl)
]

pub is_healthy-SameSettings :
    (t : HealthTracker) (u : String) (now : ℕ) → SameSettings t (is_healthy t u now).1
unfolding is_healthy
is_healthy-SameSettings t u now = elim (Option-cases (lookup u t.state)) [
  | inl e ↦ rw (e, is_healthy) (refl, refl)
  | inr (h, e) ↦ rw (e, is_healthy) (probe-SameSettings t u now h.marked_unhealthy_at)
]
