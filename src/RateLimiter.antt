-- ===== src/RateLimiter.antt =====
-- src/rate_limiter.rs: a token bucket for each client address. Instants are nanoseconds, and each
-- reading of the clock is an argument.
pub mod Burst
pub mod Clients
pub mod History
pub mod Sections
mod Tests
use l7_proxy.Base.{
  ℕ, ◌+◌, ◌-◌, ◌*◌, ◌%◌, List, [], Bool, true, false, Option, none, some, ltb, nat_beq,
  if◌then◌else◌, wrap_add, Key, ◌↔◌, ◌≡◌, arith, nat_beq_iff,
}
use l7_proxy.Base.Float.{Float}
use l7_proxy.Base.Map.{lookup, insert, retain_values}

-- `std::net::IpAddr`, by the number that its bytes spell.
pub data IpAddr : Type 0 where
  v4 v6 : ℕ → IpAddr

abbrev pub ip_beq : IpAddr → IpAddr → Bool
ip_beq (v4 a) (v4 b) = nat_beq a b
ip_beq (v6 a) (v6 b) = nat_beq a b
ip_beq (v4 a) (v6 b) = false
ip_beq (v6 a) (v4 b) = false

pub ip_beq_iff : (a b : IpAddr) → (ip_beq a b ≡ true) ↔ (a ≡ b)
ip_beq_iff (v4 a) (v4 b) = ground arith
ip_beq_iff (v6 a) (v6 b) = ground arith
ip_beq_iff (v4 a) (v6 b) = ground arith
ip_beq_iff (v6 a) (v4 b) = ground arith

instance abbrev pub ip_key : Key IpAddr
ip_key = record { agrees = ip_beq; agrees_iff = ip_beq_iff }

pub record TokenBucket (F : Type 0) : Type 0 where
  pub tokens : F
  pub capacity : F
  pub refill_rate : F
  pub last_refill : ℕ

pub record RateLimiter (F : Type 0) : Type 0 where
  pub buckets : List (IpAddr × TokenBucket F)
  pub capacity : F
  pub refill_rate : F
  pub enabled : Bool
  pub cleanup_counter : ℕ

-- `Duration::from_secs(300)`
abbrev pub stale_after : ℕ
stale_after = 300 * 1_000_000_000

module _ {F : Type 0} ⦃f : Float F⦄ where
  -- `TokenBucket::new`
  unfoldable pub new_bucket : F → F → ℕ → TokenBucket F
  new_bucket capacity refill_rate now = record {
    tokens = capacity;
    capacity = capacity;
    refill_rate = refill_rate;
    last_refill = now;
  }

  -- `duration_since` saturates at zero.
  unfoldable pub refill : TokenBucket F → ℕ → TokenBucket F
  refill b now = record b {
    tokens =
        f.fmin (f.add b.tokens (f.mul (f.secs (now - b.last_refill)) b.refill_rate)) b.capacity;
    last_refill = now;
  }

  -- The test and the withdrawal, after the refill.
  unfoldable pub withdraw : TokenBucket F → Bool × TokenBucket F
  withdraw b =
      if f.ge b.tokens (f.of_int 1)
      then (true, record b { tokens = f.sub b.tokens (f.of_int 1) })
      else (false, b)

  unfoldable pub try_acquire : TokenBucket F → ℕ → Bool × TokenBucket F
  try_acquire b now = withdraw (refill b now)

  unfoldable pub new : F → ℕ → RateLimiter F
  new requests_per_second burst_size = record {
    buckets = [];
    capacity = f.of_int burst_size;
    refill_rate = requests_per_second;
    enabled = true;
    cleanup_counter = 0;
  }

  unfoldable pub disabled : RateLimiter F
  disabled = record {
    buckets = [];
    capacity = f.of_int 0;
    refill_rate = f.of_int 0;
    enabled = false;
    cleanup_counter = 0;
  }

  -- `last_refill > now - 300 s`
  unfoldable pub cleanup : RateLimiter F → ℕ → RateLimiter F
  cleanup l now = record l {
    buckets = retain_values (λ b. ltb now (b.last_refill + stale_after)) l.buckets;
  }

  -- `or_insert_with`
  abbrev pub or_new : RateLimiter F → ℕ → Option (TokenBucket F) → TokenBucket F
  or_new l now none = new_bucket l.capacity l.refill_rate now
  or_new l now (some b) = b

  -- The last lines of `check`, under the lock. The clock is read at `made` for a new bucket, and at
  -- `now` for the refill.
  unfoldable pub acquire_for : RateLimiter F → IpAddr → ℕ → ℕ → Bool × RateLimiter F
  acquire_for l ip made now =
      let (passed, bucket) = try_acquire (or_new l made (lookup ip l.buckets)) now in
      (passed, record l { buckets = insert ip bucket l.buckets })

  -- The counter is increased, and each thousandth call, the first one too, clears out first.
  unfoldable pub counted : RateLimiter F → ℕ → RateLimiter F
  counted l swept =
      let next : RateLimiter F = record l { cleanup_counter = wrap_add l.cleanup_counter 1 } in
      if nat_beq (l.cleanup_counter % 1000) 0 then cleanup next swept else next

  unfoldable pub check : RateLimiter F → IpAddr → ℕ → ℕ → ℕ → Bool × RateLimiter F
  check l ip swept made now =
      if l.enabled then acquire_for (counted l swept) ip made now else (true, l)
