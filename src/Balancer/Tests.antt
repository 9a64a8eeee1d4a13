-- ===== src/Balancer/Tests.antt =====
-- Runs of the balancers of src/balancer.rs, and examples of what is proved of them.
use Prim.Native.String.{String, len}
use l7_proxy.Base.{
  ℕ, zero, suc, ◌*◌, ◌≡◌, ◌≤◌, ◌<◌, ◌⊎◌, refl, List, [], ◌∷◌, some, arith, if◌then◌else◌, ◌==◌,
  string_key,
}
use l7_proxy.Base.Decimal.{show}
use l7_proxy.Balancer.Cycle.{hits, served}
use l7_proxy.Balancer.RoundRobin
use l7_proxy.Balancer.Weighted
use l7_proxy.Balancer.Least
use l7_proxy.Balancer.Ring
use l7_proxy.Balancer.Ring.Successor
use l7_proxy.Balancer.Ring.Stable
use l7_proxy.Balancer.InFlight

abbrev at_five : RoundRobin.RoundRobin
at_five = record { counter = 5 }

next_index_fair_example : hits 2 (served (λ s. RoundRobin.next_index s 3) (2 * 3) at_five) ≡ 2
next_index_fair_example = RoundRobin.next_index_fair at_five 3 2 2 (omega arith) (omega arith)

abbrev three_one_two : List ℕ
three_one_two = 3 ∷ 1 ∷ 2 ∷ []

next_index_weighted_example :
    hits 2 (
      served
        (λ s. Weighted.next_index s 3)
        (2 * Weighted.total_weight three_one_two)
        (record (Weighted.new three_one_two) { counter = 7 }))
    ≡ 2 * 2
next_index_weighted_example =
    Weighted.next_index_weighted three_one_two 7 3 2 2 2 refl
      (unfold Weighted.total_weight in omega arith)

next_index_for_key-IsSuccessor_example :
    (p i : ℕ) × (Ring.next_index_for_key len (Ring.new len 2 3) 2 "/api" ≡ some i)
    × (i < 2)
    × (Ring.upstream_at (Ring.new len 2 3).ring p ≡ some i)
    × Successor.IsSuccessor (Ring.new len 2 3).ring (len "/api") p
next_index_for_key-IsSuccessor_example =
    Successor.next_index_for_key-IsSuccessor len 2 3 2 "/api" (omega arith) (omega arith)

-- A hash that tells the virtual nodes of two upstreams apart, one for each.
abbrev spread : String → ℕ
spread text = if text == "0:0" then 3 else if text == "1:0" then 7 else 5

spread-Apart : Stable.Apart spread 1 2
unfolding Ring.vnode_key show
spread-Apart zero zero r s h k l m e = refl
spread-Apart zero (suc zero) zero zero h k l m e =
    let same : 3 ≡ 7 = e in absurd (omega (arith, same))
spread-Apart (suc zero) zero zero zero h k l m e =
    let same : 7 ≡ 3 = e in absurd (omega (arith, same))
spread-Apart (suc zero) (suc zero) r s h k l m e = refl
spread-Apart zero (suc zero) (suc r) s h k l m e = absurd (omega arith)
spread-Apart zero (suc zero) zero (suc s) h k l m e = absurd (omega arith)
spread-Apart (suc zero) zero (suc r) s h k l m e = absurd (omega arith)
spread-Apart (suc zero) zero zero (suc s) h k l m e = absurd (omega arith)
spread-Apart (suc (suc i)) j r s h k l m e = absurd (omega arith)
spread-Apart zero (suc (suc j)) r s h k l m e = absurd (omega arith)
spread-Apart (suc zero) (suc (suc j)) r s h k l m e = absurd (omega arith)

next_index_for_key-stays_example :
    (Ring.next_index_for_key spread (Ring.new spread 2 1) 2 "/api" ≡ some 1)
    ⊎ (Ring.next_index_for_key spread (Ring.new spread 2 1) 2 "/api"
        ≡ Ring.next_index_for_key spread (Ring.new spread 1 1) 1 "/api")
next_index_for_key-stays_example =
    Stable.next_index_for_key-stays spread 1 1 1 2 "/api" (omega arith) (omega arith) spread-Apart

-- Of two calls on a pool of three, the first one is dropped.
abbrev two_calls : InFlight.Pool
two_calls = record {
  balancer = Least.record_start (Least.record_start (Least.new 3) 0) 1;
  running = 1 ∷ [];
  dropped = 0 ∷ [];
}

two_calls-Reach : InFlight.Reach 3 two_calls
two_calls-Reach =
    InFlight.then_step
      (InFlight.then_step (InFlight.then_step InFlight.built (InFlight.starts 0))
        (InFlight.starts 1))
      (InFlight.drops 0 (1 ∷ []) [] refl)

Reach-IsTracked_example : InFlight.IsTracked 3 two_calls
Reach-IsTracked_example = InFlight.Reach-IsTracked two_calls-Reach

next_index-fewest_example :
    (i : ℕ) × ((Least.next_index two_calls.balancer 3).0 ≡ some i)
    × (i < 3)
    × ((j : ℕ) → j < 3 → InFlight.held two_calls i ≤ InFlight.held two_calls j)
    × ((j : ℕ) → j < i → InFlight.held two_calls i < InFlight.held two_calls j)
next_index-fewest_example =
    InFlight.next_index-fewest two_calls-Reach (omega arith) (λ j h. ground arith)
