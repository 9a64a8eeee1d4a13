-- ===== src/RateLimiter/Burst.antt =====
-- How many requests one bucket lets through at once.
use l7_proxy.Base.{
  ℕ, zero, suc, ◌-◌, ◌^◌, ◌≤◌, ◌<◌, ◌≡◌, ap, ◌∙◌, List, [], ◌∷◌, Bool, true, false, arith, leb,
  replicate, min, ◌++◌,
}
use l7_proxy.Base.Float.{Float, IsExact}
use l7_proxy.RateLimiter.{TokenBucket, new_bucket, refill, withdraw, try_acquire}

module _ {F : Type 0} ⦃f : Float F⦄ where
  -- The answers to `k` requests at one instant.
  unfoldable pub burst : ℕ → TokenBucket F → ℕ → List Bool
  burst zero b now = []
  burst (suc k) b now = (try_acquire b now).0 ∷ burst k (try_acquire b now).1 now

  -- A bucket of `n` whole tokens, last touched at `now`.
  abbrev holding : ℕ → ℕ → F → ℕ → TokenBucket F
  holding n cap rate now = record {
    tokens = f.of_int n;
    capacity = f.of_int cap;
    refill_rate = rate;
    last_refill = now;
  }

  module _ {rate : F} (exact : IsExact F rate) (cap now : ℕ) (small : cap < 2 ^ 53) where
    refill-holding :
        (n : ℕ) → n ≤ cap → refill (holding n cap rate now) now ≡ holding n cap rate now
    unfolding refill
    refill-holding n h =
        let still : now - now ≡ 0 = omega arith in
        ap {B = TokenBucket F}
          (λ t. record {
            tokens = t;
            capacity = f.of_int cap;
            refill_rate = rate;
            last_refill = now;
          })
          (rw (still, exact.no_time, exact.add_nothing n (omega arith))
            (exact.fmin_le n cap small h))

    withdraw-zero : withdraw (holding 0 cap rate now) ≡ (false, holding 0 cap rate now)
    unfolding withdraw
    withdraw-zero = rw (exact.ge_leb 0 1 (omega arith) (omega arith))

    withdraw-suc :
        (n : ℕ)
        → suc n ≤ cap
        → withdraw (holding (suc n) cap rate now) ≡ (true, holding n cap rate now)
    unfolding withdraw
    withdraw-suc n h =
        let enough : leb 1 (suc n) ≡ true = ground arith in
        rw (
          exact.ge_leb (suc n) 1 (omega arith) (omega arith),
          enough,
          exact.sub_one n (omega arith),
        )

    acquire-zero : try_acquire (holding 0 cap rate now) now ≡ (false, holding 0 cap rate now)
    unfolding try_acquire
    acquire-zero = ap withdraw (refill-holding 0 (omega arith)) ∙ withdraw-zero

    acquire-suc :
        (n : ℕ)
        → suc n ≤ cap
        → try_acquire (holding (suc n) cap rate now) now ≡ (true, holding n cap rate now)
    unfolding try_acquire
    acquire-suc n h = ap withdraw (refill-holding (suc n) h) ∙ withdraw-suc n h

    burst-holding :
        (k n : ℕ)
        → n ≤ cap
        → burst k (holding n cap rate now) now ≡ replicate (min k n) true ++ replicate (k - n) false
    unfolding burst
    burst-holding zero n h =
        let none : min 0 n ≡ 0 = omega arith in
        let rest : 0 - n ≡ 0 = omega arith in rw (none, rest)
    burst-holding (suc k) zero h =
        let none : min (suc k) 0 ≡ 0 = omega arith in
        let none' : min k 0 ≡ 0 = omega arith in
        let rest : k - 0 ≡ k = omega arith in
        let all : suc k - 0 ≡ suc k = omega arith in
        rw (acquire-zero, none, all)
          (ap (◌∷◌ false) (burst-holding k zero (omega arith) ∙ rw (none', rest)))
    burst-holding (suc k) (suc n) h =
        let more : min (suc k) (suc n) ≡ suc (min k n) = omega arith in
        let rest : suc k - suc n ≡ k - n = omega arith in
        rw (acquire-suc n h, more, rest) (ap (◌∷◌ true) (burst-holding k n (omega arith)))

    -- With arithmetic that is exact on whole numbers, and a whole capacity below 2 ^ 53, of `k`
    -- requests at the instant of its creation a new bucket lets the first ones through, up to its capacity,
    -- and refuses the others.
    pub burst-new_bucket :
        (k : ℕ)
        → burst k (new_bucket (f.of_int cap) rate now) now
          ≡ replicate (min k cap) true ++ replicate (k - cap) false
    unfolding new_bucket
    burst-new_bucket k = burst-holding k cap (omega arith)
