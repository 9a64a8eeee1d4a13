-- ===== src/RateLimiter/Clients.antt =====
-- One client's bucket is not touched by the requests of another.
use l7_proxy.Base.{
  ℕ, ◌+◌, ◌%◌, ◌≡◌, ap, ◌∙◌, ◌≢◌, inl, inr, Bool, true, false, arith, ltb, nat_beq, if◌then◌else◌,
  Bool-cases,
}
use l7_proxy.Base.Float.{Float}
use l7_proxy.Base.Map.{
  lookup, lookup-insert_ne, Unique, Unique-insert, Unique-retain_values, keep_if,
  lookup-retain_values,
}
use l7_proxy.RateLimiter.{
  IpAddr, ip_key, ip_beq_iff, TokenBucket, RateLimiter, stale_after, cleanup, acquire_for, counted,
  check,
}

module _ {F : Type 0} ⦃f : Float F⦄ where
  -- A disabled limiter lets everything through and stays as it is.
  pub check-disabled :
      (l : RateLimiter F) (ip : IpAddr) (swept made now : ℕ)
      → l.enabled ≡ false
      → check l ip swept made now ≡ (true, l)
  unfolding check
  check-disabled l ip swept made now h = rw h

  -- Whether this call sweeps.
  abbrev pub sweeps : RateLimiter F → Bool
  sweeps l = nat_beq (l.cleanup_counter % 1000) 0

  -- A bucket is stale when nothing has refilled it for 300 seconds.
  abbrev pub is_live : ℕ → TokenBucket F → Bool
  is_live now b = ltb now (b.last_refill + stale_after)

  pub lookup-counted :
      (l : RateLimiter F) (ip : IpAddr) (swept : ℕ)
      → Unique l.buckets
      → lookup ip (counted l swept).buckets
        ≡ (if sweeps l then keep_if (is_live swept) (lookup ip l.buckets) else lookup ip l.buckets)
  unfolding counted cleanup
  lookup-counted l ip swept u = elim (Bool-cases (sweeps l)) [
    | inl due ↦ rw due (lookup-retain_values (is_live swept) ip l.buckets u)
    | inr early ↦ rw early
  ]

  Unique-counted :
      (l : RateLimiter F) (swept : ℕ) → Unique l.buckets → Unique (counted l swept).buckets
  unfolding counted cleanup
  Unique-counted l swept u = elim (Bool-cases (sweeps l)) [
    | inl due ↦ rw due (Unique-retain_values (is_live swept) l.buckets u)
    | inr early ↦ rw early u
  ]

  acquire_for-Unique :
      (l : RateLimiter F) (ip : IpAddr) (made now : ℕ)
      → Unique l.buckets
      → Unique (acquire_for l ip made now).1.buckets
  unfolding acquire_for
  acquire_for-Unique l ip made now u = Unique-insert ip _ l.buckets u

  acquire_for-other :
      (l : RateLimiter F) (ip other : IpAddr) (made now : ℕ)
      → ip ≢ other
      → lookup other (acquire_for l ip made now).1.buckets ≡ lookup other l.buckets
  unfolding acquire_for
  acquire_for-other l ip other made now ne =
      lookup-insert_ne ip other _ l.buckets (ground (arith, ip_beq_iff ip other))

  pub check_enabled :
      (l : RateLimiter F) (ip : IpAddr) (swept made now : ℕ)
      → l.enabled ≡ true
      → check l ip swept made now ≡ acquire_for (counted l swept) ip made now
  unfolding check
  check_enabled l ip swept made now on =
      ap (λ b. if b then acquire_for (counted l swept) ip made now else (true, l)) on

  -- A map with at most one bucket for each address stays so.
  pub check-Unique :
      (l : RateLimiter F) (ip : IpAddr) (swept made now : ℕ)
      → Unique l.buckets
      → Unique (check l ip swept made now).1.buckets
  check-Unique l ip swept made now u = elim (Bool-cases l.enabled) [
    | inl on ↦
        rw (check_enabled l ip swept made now on)
          (acquire_for-Unique (counted l swept) ip made now (Unique-counted l swept u))
    | inr off ↦ rw (check-disabled l ip swept made now off) u
  ]

  -- With the limiter enabled and at most one bucket for each address, a request leaves the buckets
  -- of all other addresses as they are, but that each thousandth one drops those that are stale.
  pub check-other :
      (l : RateLimiter F) (ip other : IpAddr) (swept made now : ℕ)
      → Unique l.buckets
      → l.enabled ≡ true
      → ip ≢ other
      → lookup other (check l ip swept made now).1.buckets ≡ (
          if sweeps l
          then keep_if (is_live swept) (lookup other l.buckets)
          else lookup other l.buckets)
  check-other l ip other swept made now u on ne =
      rw (check_enabled l ip swept made now on)
        (acquire_for-other (counted l swept) ip other made now ne ∙ lookup-counted l other swept u)
