-- ===== src/Balancer/Ready.antt =====
-- When a balancer answers without a panic, and that its operations keep it so.
use Prim.Native.String.{String}
use l7_proxy.Base.{ℕ, ◌<◌, ◌≡◌, List, Option, none, some, arith, length, replicate}
use l7_proxy.Config.{
  BalancerStrategy, round_robin, least_connections, weighted_round_robin, consistent_hash,
}
use l7_proxy.Balancer.{
  LoadBalancer, rr, lc, wrr, ch, record_start, record_done, next_index, next_index_for_key,
  create_balancer,
}
use l7_proxy.Balancer.Ring.Sorting.{IsSorted}
use l7_proxy.Balancer.RoundRobin
use l7_proxy.Balancer.Least
use l7_proxy.Balancer.Weighted
use l7_proxy.Balancer.Ring.Successor

-- The state from which a choice among `n` upstreams does not panic.
abbrev pub IsReady : ℕ → LoadBalancer → Type 0
IsReady n (rr b) = 0 < n
IsReady n (lc b) = (0 < n) × (0 < length b.active)
IsReady n (wrr b) = 0 < length b.schedule
IsReady n (ch b) = (0 < length b.ring) × IsSorted b.ring

-- The weights of a configuration that can be served: none, or some that are not all zero.
abbrev pub HasWeight : Option (List ℕ) → Type 0
HasWeight none = Unit
HasWeight (some ws) = 0 < Weighted.total_weight ws

module _ (hash : String → ℕ) where
  -- For a pool that is not empty, and weights that are not all zero if there are any, the factory
  -- builds a balancer that is ready for the pool, whatever the strategy.
  pub create_balancer-IsReady :
      (s : BalancerStrategy) (n : ℕ) (ws : Option (List ℕ))
      → 0 < n
      → HasWeight ws
      → IsReady n (create_balancer hash s n ws)
  unfolding create_balancer
  create_balancer-IsReady round_robin n ws h w = h
  create_balancer-IsReady least_connections n ws h w = (h, rw (Least.length-new n) h)
  create_balancer-IsReady weighted_round_robin n none h w =
      rw (Weighted.length-schedule (replicate n 1), Weighted.total_weight-ones n) h
  create_balancer-IsReady weighted_round_robin n (some ws) h w = rw (Weighted.length-schedule ws) w
  create_balancer-IsReady consistent_hash n ws h w =
      (grind (arith, Successor.length-ring hash n 150), Successor.ring-IsSorted hash n 150)

  -- A ready balancer answers.
  pub next_index_for_key_total :
      (b : LoadBalancer) (n : ℕ) (key : String)
      → IsReady n b
      → (i : ℕ) × ((next_index_for_key hash b n key).0 ≡ some i)
  unfolding next_index_for_key next_index
  next_index_for_key_total (rr b) n key r =
      let (i, e, _) = RoundRobin.next_index_total b n r in (i, e)
  next_index_for_key_total (lc b) n key r =
      let (i, e, _, _) = Least.next_index-FirstMin b n r.0 r.1 in (i, e)
  next_index_for_key_total (wrr b) n key r = Weighted.next_index_total b n r
  next_index_for_key_total (ch b) n key r = Successor.next_index_for_key_total hash b n key r.0 r.1

  -- Every operation keeps it ready, for any pool.
  pub next_index_for_key-IsReady :
      (b : LoadBalancer) (m n : ℕ) (key : String)
      → IsReady n b
      → IsReady n (next_index_for_key hash b m key).1
  unfolding next_index_for_key next_index
  next_index_for_key-IsReady (rr b) m n key r = r
  next_index_for_key-IsReady (lc b) m n key r = rw (Least.next_index-active b m) r
  next_index_for_key-IsReady (wrr b) m n key r = rw (Weighted.next_index-schedule b m) r
  next_index_for_key-IsReady (ch b) m n key r = r

pub record_start-IsReady : (b : LoadBalancer) (n i : ℕ) → IsReady n b → IsReady n (record_start b i)
unfolding record_start
record_start-IsReady (lc b) n i r = (r.0, rw (Least.length-record_start b i) r.1)
record_start-IsReady b n i r = r

pub record_done-IsReady : (b : LoadBalancer) (n i : ℕ) → IsReady n b → IsReady n (record_done b i)
unfolding record_done
record_done-IsReady (lc b) n i r = (r.0, rw (Least.length-record_done b i) r.1)
record_done-IsReady b n i r = r
