-- ===== src/Balancer/RoundRobin.antt =====
-- src/balancer.rs, `RoundRobin`: the counter's value before the call, modulo the pool.
use native.Mathlib.Nat.{mod-lt}
use l7_proxy.Base.{
  ℕ, ◌+◌, ◌*◌, ◌%◌, ◌≤◌, ◌<◌, ◌≡◌, refl, ap, ◌∙◌, Option, some, arith, nat_beq, if◌then◌else◌,
  wrap_add, u64_mod,
}
use l7_proxy.Balancer.Cycle.{
  tally, tally_congr, tally_single, tally-periods, hit, hits, served, hits-served, checked_rem,
  checked_rem_periodic, checked_rem_of_lt, checked_rem_of_pos,
}

pub record RoundRobin : Type 0 where
  pub counter : ℕ

pub new : RoundRobin
new = record { counter = 0 }

-- The answer, `none` for a panic, and the balancer after the call.
unfoldable pub next_index : RoundRobin → ℕ → Option ℕ × RoundRobin
next_index b pool_size =
    (checked_rem b.counter pool_size, record b { counter = wrap_add b.counter 1 })

-- In any `m` rounds of calls on a pool of `n` upstreams, made before the 64-bit counter wraps,
-- each upstream is chosen exactly `m` times.
pub next_index_fair :
    (b : RoundRobin) (n m x : ℕ)
    → x < n
    → b.counter + m * n ≤ u64_mod
    → hits x (served (λ s. next_index s n) (m * n) b) ≡ m
unfolding next_index
next_index_fair b n m x h room =
    hits-served (λ _. Unit) (λ s. next_index s n) (λ s. s.counter) (λ i. checked_rem i n)
      (λ s _. tt) (λ s _. refl) (λ s. refl) x (m * n) b tt room
    ∙ tally-periods (λ i. hit x (checked_rem i n)) n (λ i. ap (hit x) (checked_rem_periodic i n))
        b.counter m
    ∙ once
  where
    one : tally (λ i. hit x (checked_rem i n)) 0 n ≡ 1
    one =
        tally_congr _ (λ i. if nat_beq i x then 1 else 0) 0 n
          (λ i l. ap (hit x) (checked_rem_of_lt i n (omega arith)))
        ∙ tally_single x 0 n (omega arith) (omega arith)

    once : m * tally (λ i. hit x (checked_rem i n)) 0 n ≡ m
    once = rw one (omega arith)

pub next_index_total :
    (b : RoundRobin) (n : ℕ) → 0 < n → (i : ℕ) × ((next_index b n).0 ≡ some i) × (i < n)
unfolding next_index
next_index_total b n h = (b.counter % n, checked_rem_of_pos b.counter n h, mod-lt _ h)
