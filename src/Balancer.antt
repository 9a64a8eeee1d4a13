-- ===== src/Balancer.antt =====
-- src/balancer.rs: the trait `LoadBalancer`, its four implementations and their factory. A method
-- on `&self` that changes an atomic returns the new state; `none` is a panic.
pub mod Cycle
pub mod RoundRobin
pub mod Weighted
pub mod Least
pub mod Ring
pub mod Ready
pub mod InFlight
mod Tests
use Prim.Native.String.{String}
use l7_proxy.Base.{ℕ, List, Option, none, some, replicate}
use l7_proxy.Config.{
  BalancerStrategy, round_robin, least_connections, weighted_round_robin, consistent_hash,
}

pub data LoadBalancer : Type 0 where
  rr : RoundRobin.RoundRobin → LoadBalancer
  lc : Least.LeastConnections → LoadBalancer
  wrr : Weighted.WeightedRoundRobin → LoadBalancer
  ch : Ring.ConsistentHash → LoadBalancer

abbrev keep {ℓ} : {S : Type ℓ} → (S → LoadBalancer) → Option ℕ × S → Option ℕ × LoadBalancer
keep f (o, s) = (o, f s)

-- Only `LeastConnections` overrides these two methods.
unfoldable pub record_start : LoadBalancer → ℕ → LoadBalancer
record_start (lc b) index = lc (Least.record_start b index)
record_start b index = b

unfoldable pub record_done : LoadBalancer → ℕ → LoadBalancer
record_done (lc b) index = lc (Least.record_done b index)
record_done b index = b

module _ (hash : String → ℕ) where
  unfoldable pub next_index : LoadBalancer → ℕ → Option ℕ × LoadBalancer
  next_index (rr b) pool_size = keep rr (RoundRobin.next_index b pool_size)
  next_index (lc b) pool_size = keep lc (Least.next_index b pool_size)
  next_index (wrr b) pool_size = keep wrr (Weighted.next_index b pool_size)
  next_index (ch b) pool_size = (Ring.next_index hash b pool_size, ch b)

  -- Only `ConsistentHash` overrides the trait's default, which drops the key.
  unfoldable pub next_index_for_key : LoadBalancer → ℕ → String → Option ℕ × LoadBalancer
  next_index_for_key (ch b) pool_size key = (Ring.next_index_for_key hash b pool_size key, ch b)
  next_index_for_key b pool_size key = next_index b pool_size

  -- `weights.unwrap_or(&vec![1; pool_size])`
  abbrev weights_or_ones : Option (List ℕ) → ℕ → List ℕ
  weights_or_ones none pool_size = replicate pool_size 1
  weights_or_ones (some ws) pool_size = ws

  unfoldable pub create_balancer : BalancerStrategy → ℕ → Option (List ℕ) → LoadBalancer
  create_balancer round_robin pool_size weights = rr RoundRobin.new
  create_balancer least_connections pool_size weights = lc (Least.new pool_size)
  create_balancer weighted_round_robin pool_size weights =
      wrr (Weighted.new (weights_or_ones weights pool_size))
  create_balancer consistent_hash pool_size weights = ch (Ring.new hash pool_size 150)
