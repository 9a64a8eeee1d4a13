-- ===== src/RateLimiter/History.antt =====
-- The limiter of src/rate_limiter.rs over a history of requests from any clients: what one client is
-- told.
use l7_proxy.Base.{
  ℕ, ◌%◌, ◌≡◌, refl, ap, subst, ap₂, ◌∙◌, ◌≢◌, inl, inr, List, [], ◌∷◌, Bool, true, Option, none,
  some, arith, nat_beq, if◌then◌else◌, Bool-cases, wrap_add,
}
use l7_proxy.Base.Float.{Float}
use l7_proxy.Base.Map.{lookup, lookup-insert_self, Unique, keep_if}
use l7_proxy.RateLimiter.{
  IpAddr, ip_key, ip_beq, ip_beq_iff, TokenBucket, RateLimiter, new, or_new, try_acquire,
  acquire_for, counted, cleanup, check, new_bucket,
}
use l7_proxy.RateLimiter.Clients.{
  check-disabled, is_live, check_enabled, check-Unique, check-other, lookup-counted,
}

-- A request, with the clock's readings that `check` makes for it.
pub record Ask : Type 0 where
  pub ip : IpAddr
  pub swept : ℕ
  pub made : ℕ
  pub now : ℕ

-- What one client's bucket depends on: the settings, the counter of all requests, and the bucket.
pub record Own (F : Type 0) : Type 0 where
  pub capacity : F
  pub refill_rate : F
  pub counter : ℕ
  pub bucket : Option (TokenBucket F)

module _ {F : Type 0} ⦃f : Float F⦄ where
  -- The answers to the requests of `w` among a history.
  unfoldable pub answers : IpAddr → RateLimiter F → List Ask → List Bool
  answers w l [] = []
  answers w l (a ∷ later) =
      let (passed, l') = check l a.ip a.swept a.made a.now in
      let rest = answers w l' later in if ip_beq a.ip w then passed ∷ rest else rest

  -- Each thousandth request of anyone drops the bucket if it is stale.
  abbrev pub kept : Own F → Ask → Option (TokenBucket F)
  kept o a = if nat_beq (o.counter % 1000) 0 then keep_if (is_live a.swept) o.bucket else o.bucket

  -- The client's own bucket, or a full one.
  abbrev pub or_full : F → F → ℕ → Option (TokenBucket F) → TokenBucket F
  or_full capacity refill_rate made none = new_bucket capacity refill_rate made
  or_full capacity refill_rate made (some b) = b

  abbrev pub own_bucket : Own F → Ask → TokenBucket F
  own_bucket o a = or_full o.capacity o.refill_rate a.made (kept o a)

  abbrev pub asked : Own F → Ask → Bool × Own F
  asked o a =
      let (passed, b) = try_acquire (own_bucket o a) a.now in
      (passed, record o { counter = wrap_add o.counter 1; bucket = some b })

  abbrev pub passed_by : Own F → Ask → Own F
  passed_by o a = record o { counter = wrap_add o.counter 1; bucket = kept o a }

  -- The answers that the client's own bucket gives, where of the requests of others only their number
  -- and the instants of the sweeps count.
  unfoldable pub own_answers : IpAddr → Own F → List Ask → List Bool
  own_answers w o [] = []
  own_answers w o (a ∷ later) =
      let own = (asked o a).0 ∷ own_answers w (asked o a).1 later in
      let other = own_answers w (passed_by o a) later in if ip_beq a.ip w then own else other

  abbrev own : IpAddr → RateLimiter F → Own F
  own w l = record {
    capacity = l.capacity;
    refill_rate = l.refill_rate;
    counter = l.cleanup_counter;
    bucket = lookup w l.buckets;
  }

  counted-settings :
      (l : RateLimiter F) (swept : ℕ)
      → ((counted l swept).capacity ≡ l.capacity)
        × ((counted l swept).refill_rate ≡ l.refill_rate)
        × ((counted l swept).cleanup_counter ≡ wrap_add l.cleanup_counter 1)
        × ((counted l swept).enabled ≡ l.enabled)
  unfolding counted cleanup
  counted-settings l swept = ground arith

  own_eq :
      {o p : Own F}
      → o.capacity ≡ p.capacity
      → o.refill_rate ≡ p.refill_rate
      → o.counter ≡ p.counter
      → o.bucket ≡ p.bucket
      → o ≡ p
  own_eq c r n b = λ i. record { capacity = c i; refill_rate = r i; counter = n i; bucket = b i }

  -- A request leaves the settings of the limiter alone.
  pub check-settings :
      (l : RateLimiter F) (ip : IpAddr) (swept made now : ℕ)
      → ((check l ip swept made now).1.capacity ≡ l.capacity)
        × ((check l ip swept made now).1.refill_rate ≡ l.refill_rate)
        × ((check l ip swept made now).1.enabled ≡ l.enabled)
  unfolding acquire_for
  check-settings l ip swept made now = elim (Bool-cases l.enabled) [
    | inl on ↦
        let (cap, rate, count, same) = counted-settings l swept in
        rw (check_enabled l ip swept made now on) (cap, rate, same)
    | inr off ↦ rw (check-disabled l ip swept made now off) (refl, refl, refl)
  ]

  or_new_lem :
      (l : RateLimiter F) (made : ℕ) (o : Option (TokenBucket F))
      → or_new l made o ≡ or_full l.capacity l.refill_rate made o
  or_new_lem l made none = refl
  or_new_lem l made (some b) = refl

  own_bucket_lem :
      (l : RateLimiter F) (a : Ask)
      → Unique l.buckets
      → or_new (counted l a.swept) a.made (lookup a.ip (counted l a.swept).buckets)
        ≡ own_bucket (own a.ip l) a
  own_bucket_lem l a u =
      let (cap, rate, count, same) = counted-settings l a.swept in
      let found = lookup-counted l a.ip a.swept u in
      or_new_lem (counted l a.swept) a.made (lookup a.ip (counted l a.swept).buckets)
      ∙ rw (cap, rate, found) refl

  -- A request of the client itself, seen from its own bucket.
  check_self :
      (l : RateLimiter F) (a : Ask)
      → Unique l.buckets
      → l.enabled ≡ true
      → ((check l a.ip a.swept a.made a.now).0 ≡ (asked (own a.ip l) a).0)
        × (own a.ip (check l a.ip a.swept a.made a.now).1 ≡ (asked (own a.ip l) a).1)
  unfolding acquire_for
  check_self l a u on =
      let (cap, rate, count, same) = counted-settings l a.swept in
      let bucket = own_bucket_lem l a u in
      let here = ap (λ b. try_acquire b a.now) bucket in
      rw (check_enabled l a.ip a.swept a.made a.now on) (
        ap (λ x. x.0) here,
        own_eq cap rate count
            (lookup-insert_self a.ip _ (counted l a.swept).buckets ∙ ap (λ x. some x.1) here),
      )

  -- A request of another client.
  check_other :
      (l : RateLimiter F) (a : Ask) (w : IpAddr)
      → Unique l.buckets
      → l.enabled ≡ true
      → a.ip ≢ w
      → own w (check l a.ip a.swept a.made a.now).1 ≡ passed_by (own w l) a
  unfolding acquire_for
  check_other l a w u on ne =
      let (cap, rate, count, same) = counted-settings l a.swept in
      let found = check-other l a.ip w a.swept a.made a.now u on ne in
      let e = check_enabled l a.ip a.swept a.made a.now on in
      own_eq (ap (λ x. x.1.capacity) e ∙ cap) (ap (λ x. x.1.refill_rate) e ∙ rate)
        (ap (λ x. x.1.cleanup_counter) e ∙ count) found

  check-enabled :
      (l : RateLimiter F) (a : Ask)
      → l.enabled ≡ true
      → (check l a.ip a.swept a.made a.now).1.enabled ≡ true
  unfolding acquire_for
  check-enabled l a on =
      ap (λ x. x.1.enabled) (check_enabled l a.ip a.swept a.made a.now on)
      ∙ (counted-settings l a.swept).3
      ∙ on

  answers-eq-own :
      (w : IpAddr) (l : RateLimiter F) (asks : List Ask)
      → Unique l.buckets
      → l.enabled ≡ true
      → answers w l asks ≡ own_answers w (own w l) asks
  unfolding answers own_answers
  answers-eq-own w l [] u on = refl
  answers-eq-own w l (a ∷ later) u on =
      let next = (check l a.ip a.swept a.made a.now).1 in
      let ih =
        answers-eq-own w next later (check-Unique l a.ip a.swept a.made a.now u)
          (check-enabled l a on) in
      elim (Bool-cases (ip_beq a.ip w)) [
        | inl self ↦
            let (told, after) =
              subst
                (λ v.
                  ((check l a.ip a.swept a.made a.now).0 ≡ (asked (own v l) a).0)
                  × (own v next ≡ (asked (own v l) a).1))
                ((ip_beq_iff a.ip w).0 self) (check_self l a u on) in
            rw self (ap₂ ◌∷◌ told (ih ∙ ap (λ o. own_answers w o later) after))
        | inr other ↦
            let after = check_other l a w u on (λ e. ground (arith, ip_beq_iff a.ip w)) in
            rw other (ih ∙ ap (λ o. own_answers w o later) after)
      ]

  -- What a new limiter tells a client, in any history of requests of any clients, is what the
  -- client's own bucket alone gives, full at its first request: of the requests of others only their
  -- number counts, and the instants of the sweeps, each thousandth request, which drop the bucket if
  -- nothing has refilled it for 300 seconds.
  pub answers-own :
      (requests_per_second : F) (burst_size : ℕ) (w : IpAddr) (asks : List Ask)
      → answers w (new requests_per_second burst_size) asks
        ≡ own_answers w
            (record {
              capacity = f.of_int burst_size;
              refill_rate = requests_per_second;
              counter = 0;
              bucket = none;
            })
            asks
  unfolding new
  answers-own requests_per_second burst_size w asks =
      answers-eq-own w (new requests_per_second burst_size) asks tt refl
