-- ===== src/RateLimiter/Sections.antt =====
-- `check` of src/rate_limiter.rs cut into what is atomic in it: the counter, the sweep under the lock,
-- and the bucket under the lock. Between them the sections of other calls may come, in any order.
use l7_proxy.Base.{
  ℕ, ◌%◌, ◌≡◌, refl, ap, ap₂, subst, ◌∙◌, inl, inr, List, [], ◌∷◌, Bool, true, Option, none, some,
  nat_beq, if◌then◌else◌, Bool-cases, wrap_add,
}
use l7_proxy.Base.Float.{Float}
use l7_proxy.Base.Map.{
  lookup, lookup-insert_self, lookup-insert_ne, Unique, Unique-insert, Unique-retain_values,
  keep_if, lookup-retain_values,
}
use l7_proxy.RateLimiter.{
  IpAddr, ip_key, ip_beq, ip_beq_iff, TokenBucket, RateLimiter, new, or_new, try_acquire,
  acquire_for, counted, cleanup, check,
}
use l7_proxy.RateLimiter.Clients.{is_live, check_enabled}
use l7_proxy.RateLimiter.History.{or_full}

pub data Section : Type 0 where
  counts : Section
  -- at an instant
  sweeps : ℕ → Section
  -- for a client, with the clock's readings for a new bucket and for the refill
  acquires : IpAddr → ℕ → ℕ → Section

module _ {F : Type 0} ⦃f : Float F⦄ where
  unfoldable pub after : RateLimiter F → Section → RateLimiter F
  after l counts = record l { cleanup_counter = wrap_add l.cleanup_counter 1 }
  after l (sweeps now) = cleanup l now
  after l (acquires ip made now) = (acquire_for l ip made now).1

  unfoldable pub after_all : RateLimiter F → List Section → RateLimiter F
  after_all l [] = l
  after_all l (s ∷ ss) = after_all (after l s) ss

  -- The sections of a call that are due before it takes from the bucket.
  abbrev pub before_bucket : RateLimiter F → ℕ → List Section
  before_bucket l swept =
      counts ∷ (if nat_beq (l.cleanup_counter % 1000) 0 then sweeps swept ∷ [] else [])

  -- A call of an enabled limiter that nothing comes between is its sections one after the other.
  pub check-eq-sections :
      (l : RateLimiter F) (ip : IpAddr) (swept made now : ℕ)
      → l.enabled ≡ true
      → check l ip swept made now ≡ acquire_for (after_all l (before_bucket l swept)) ip made now
  unfolding counted after_all after
  check-eq-sections l ip swept made now on =
      check_enabled l ip swept made now on
      ∙ elim (Bool-cases (nat_beq (l.cleanup_counter % 1000) 0)) [
        | inl due ↦ rw due refl
        | inr early ↦ rw early refl
      ]

  -- What the client `w` is told in a sequence of sections.
  unfoldable pub told : IpAddr → RateLimiter F → List Section → List Bool
  told w l [] = []
  told w l (counts ∷ ss) = told w (after l counts) ss
  told w l (sweeps now ∷ ss) = told w (after l (sweeps now)) ss
  told w l (acquires ip made now ∷ ss) =
      let rest = told w (after l (acquires ip made now)) ss in
      if ip_beq ip w then (acquire_for l ip made now).0 ∷ rest else rest

  -- What its own bucket gives: it is full at first, taken from by the sections of this client, and
  -- dropped by a sweep that finds it stale.
  unfoldable pub own_told : IpAddr → F → F → Option (TokenBucket F) → List Section → List Bool
  own_told w capacity rate bucket [] = []
  own_told w capacity rate bucket (counts ∷ ss) = own_told w capacity rate bucket ss
  own_told w capacity rate bucket (sweeps now ∷ ss) =
      own_told w capacity rate (keep_if (is_live now) bucket) ss
  own_told w capacity rate bucket (acquires ip made now ∷ ss) =
      let taken = try_acquire (or_full capacity rate made bucket) now in
      let own = taken.0 ∷ own_told w capacity rate (some taken.1) ss in
      let other = own_told w capacity rate bucket ss in if ip_beq ip w then own else other

  or_new-or_full :
      (l : RateLimiter F) (made : ℕ) (o : Option (TokenBucket F))
      → or_new l made o ≡ or_full l.capacity l.refill_rate made o
  or_new-or_full l made none = refl
  or_new-or_full l made (some b) = refl

  told-own :
      (w : IpAddr) (l : RateLimiter F) (ss : List Section)
      → Unique l.buckets
      → told w l ss ≡ own_told w l.capacity l.refill_rate (lookup w l.buckets) ss
  unfolding told own_told after cleanup acquire_for
  told-own w l [] u = refl
  told-own w l (counts ∷ ss) u =
      told-own w (record l { cleanup_counter = wrap_add l.cleanup_counter 1 }) ss u
  told-own w l (sweeps now ∷ ss) u =
      told-own w (cleanup l now) ss (Unique-retain_values (is_live now) l.buckets u)
      ∙ ap (λ o. own_told w l.capacity l.refill_rate o ss)
          (lookup-retain_values (is_live now) w l.buckets u)
  told-own w l (acquires ip made now ∷ ss) u =
      let ih = told-own w (acquire_for l ip made now).1 ss (Unique-insert ip _ l.buckets u) in
      elim (Bool-cases (ip_beq ip w)) [
        | inl self ↦
            let same = (ip_beq_iff ip w).0 self in
            let bucket =
              ap (λ b. try_acquire b now)
                (or_new-or_full l made (lookup ip l.buckets)
                  ∙ ap (λ x. or_full l.capacity l.refill_rate made (lookup x l.buckets)) same) in
            let taken = try_acquire (or_new l made (lookup ip l.buckets)) now in
            let found =
              subst (λ x. lookup x (acquire_for l ip made now).1.buckets ≡ some taken.1) same
                (lookup-insert_self ip _ l.buckets) in
            rw self (
              ap₂ ◌∷◌ (ap (λ t. t.0) bucket) (
                ih
                ∙ ap (λ o. own_told w l.capacity l.refill_rate o ss)
                    (found ∙ ap (λ t. some t.1) bucket)))
        | inr other ↦ rw other (
            ih
            ∙ ap (λ o. own_told w l.capacity l.refill_rate o ss)
                (lookup-insert_ne ip w _ l.buckets other))
      ]

  -- In any sequence of the sections of any calls, in any order, what a new limiter tells a client is
  -- what the client's own bucket gives: full at first, taken from by the client's own calls only, and
  -- dropped only by sweeps that find that nothing has refilled it for 300 seconds. So nothing depends
  -- on what comes between the counter, the sweep and the bucket of a call.
  pub told-new :
      (requests_per_second : F) (burst_size : ℕ) (w : IpAddr) (ss : List Section)
      → told w (new requests_per_second burst_size) ss
        ≡ own_told w (f.of_int burst_size) requests_per_second none ss
  unfolding new
  told-new requests_per_second burst_size w ss =
      told-own w (new requests_per_second burst_size) ss tt
