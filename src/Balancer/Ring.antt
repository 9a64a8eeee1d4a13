-- ===== src/Balancer/Ring.antt =====
-- src/balancer.rs, `ConsistentHash`: the ring of virtual nodes. `hash_key` runs the standard
-- library's `DefaultHasher`, whose algorithm is not specified: it is the parameter `hash`.
pub mod Search
pub mod Sorting
pub mod Successor
pub mod Stable
use Prim.Native.String.{String}
use Prim.Native.String
use l7_proxy.Base.{
  ℕ, zero, suc, ◌%◌, ◌/◌, ◌++◌, List, [], ◌∷◌, Option, none, some, ltb, leb, length, if◌then◌else◌,
  get_or,
}
use l7_proxy.Base.Decimal.{show}
use Search.{SearchResult, found, missing, binary_search}
use Sorting.{sort_by_key}

-- `format!("{}:{}", i, r)`
unfoldable pub vnode_key : ℕ → ℕ → String
vnode_key i r = String.◌++◌ (show i) (String.◌++◌ ":" (show r))

pub record ConsistentHash : Type 0 where
  pub ring : List (ℕ × ℕ)

module _ (hash : String → ℕ) where
  -- The inner loop: the nodes `r`, `r + 1`, … of upstream `i`.
  unfoldable pub nodes_of : ℕ → ℕ → ℕ → List (ℕ × ℕ)
  nodes_of i r zero = []
  nodes_of i r (suc left) = (hash (vnode_key i r), i) ∷ nodes_of i (suc r) left

  -- The outer loop: the upstreams `i`, `i + 1`, ….
  unfoldable pub all_nodes : ℕ → ℕ → ℕ → List (ℕ × ℕ)
  all_nodes replicas i zero = []
  all_nodes replicas i (suc left) = nodes_of i 0 replicas ++ all_nodes replicas (suc i) left

  unfoldable pub new : ℕ → ℕ → ConsistentHash
  new pool_size replicas = record { ring = sort_by_key (all_nodes replicas 0 pool_size) }

-- The upstream of the entry at `pos`; a read outside the ring panics.
abbrev pub upstream_at : List (ℕ × ℕ) → ℕ → Option ℕ
upstream_at [] pos = none
upstream_at ((h, i) ∷ rest) zero = some i
upstream_at ((h, i) ∷ rest) (suc pos) = upstream_at rest pos

module _ (hash : String → ℕ) where
  -- The fallback for callers without a key.
  unfoldable pub next_index : ConsistentHash → ℕ → Option ℕ
  next_index b _ = some 0

  unfoldable pub next_index_for_key : ConsistentHash → ℕ → String → Option ℕ
  next_index_for_key b _ key = elim (binary_search b.ring (hash key)) [
    | found pos ↦ upstream_at b.ring pos
    | missing pos ↦ if leb (length b.ring) pos then upstream_at b.ring 0 else upstream_at b.ring pos
  ]
