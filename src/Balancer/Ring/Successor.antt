-- ===== src/Balancer/Ring/Successor.antt =====
-- The upstream that a key is sent to: the owner of the next virtual node on the ring.
use Prim.Native.String.{String}
use l7_proxy.Base.{
  ℕ, zero, suc, ◌+◌, ◌*◌, ◌≤◌, ◌<◌, ◌≡◌, refl, ap, ◌∙◌, ◌⊎◌, inl, inr, List, [], ◌∷◌, some, arith,
  leb, if◌then◌else◌, length, length-append, All, All-append, Bool-cases, dec_lt,
}
use l7_proxy.Balancer.Ring.Sorting.{
  Entry, IsSorted, hash_at, hash_at_mono, sort_by_key-IsSorted, sort_by_key-All, length-sort_by_key,
}
use l7_proxy.Balancer.Ring.Search.{
  SearchResult, found, missing, binary_search, Answers, binary_search-Answers,
}
use l7_proxy.Balancer.Ring.{
  ConsistentHash, nodes_of, all_nodes, new, upstream_at, next_index_for_key,
}

-- Place `p` has the least hash that is not below `key`, or every hash is below it and `p` is first.
abbrev pub IsSuccessor : List Entry → ℕ → ℕ → Type 0
IsSuccessor ring key p =
    ((key ≤ hash_at ring p)
      × ((j : ℕ) → j < length ring → key ≤ hash_at ring j → hash_at ring p ≤ hash_at ring j))
    ⊎ ((p ≡ 0) × ((j : ℕ) → j < length ring → hash_at ring j < key))

upstream_at_of_lt :
    (ring : List Entry) (bound p : ℕ)
    → All (λ y. y.1 < bound) ring
    → p < length ring
    → (i : ℕ) × (upstream_at ring p ≡ some i) × (i < bound)
upstream_at_of_lt [] bound p a h = elim h [ ]
upstream_at_of_lt (x ∷ ring) bound zero a h = (x.1, refl, a.0)
upstream_at_of_lt (x ∷ ring) bound (suc p) a h = upstream_at_of_lt ring bound p a.1 (omega arith)

upstream_at_total :
    (ring : List Entry) (p : ℕ) → p < length ring → (i : ℕ) × (upstream_at ring p ≡ some i)
upstream_at_total [] p h = elim h [ ]
upstream_at_total (x ∷ ring) zero h = (x.1, refl)
upstream_at_total (x ∷ ring) (suc p) h = upstream_at_total ring p (omega arith)

module _ (hash : String → ℕ) where
  nodes_of-All : (i r n bound : ℕ) → i < bound → All (λ y. y.1 < bound) (nodes_of hash i r n)
  unfolding nodes_of
  nodes_of-All i r zero bound h = tt
  nodes_of-All i r (suc n) bound h = (h, nodes_of-All i (suc r) n bound h)

  all_nodes-All :
      (replicas i n bound : ℕ)
      → i + n ≤ bound
      → All (λ y. y.1 < bound) (all_nodes hash replicas i n)
  unfolding all_nodes
  all_nodes-All replicas i zero bound h = tt
  all_nodes-All replicas i (suc n) bound h =
      All-append _ (nodes_of hash i 0 replicas) _ (nodes_of-All i 0 replicas bound (omega arith))
        (all_nodes-All replicas (suc i) n bound (omega arith))

  length-nodes_of : (i r n : ℕ) → length (nodes_of hash i r n) ≡ n
  unfolding nodes_of
  length-nodes_of i r zero = refl
  length-nodes_of i r (suc n) = ap suc (length-nodes_of i (suc r) n)

  length-all_nodes : (replicas i n : ℕ) → length (all_nodes hash replicas i n) ≡ n * replicas
  unfolding all_nodes
  length-all_nodes replicas i zero = omega arith
  length-all_nodes replicas i (suc n) = omega (
    arith,
    length-append (nodes_of hash i 0 replicas) (all_nodes hash replicas (suc i) n),
    length-nodes_of i 0 replicas,
    length-all_nodes replicas (suc i) n,
  )

  -- The ring has `replicas` nodes for each upstream.
  pub length-ring : (n replicas : ℕ) → length (new hash n replicas).ring ≡ n * replicas
  unfolding new
  length-ring n replicas =
      length-sort_by_key (all_nodes hash replicas 0 n) ∙ length-all_nodes replicas 0 n

  ring-All : (n replicas : ℕ) → All (λ y. y.1 < n) (new hash n replicas).ring
  unfolding new
  ring-All n replicas = sort_by_key-All _ _ (all_nodes-All replicas 0 n n (omega arith))

  pub ring-IsSorted : (n replicas : ℕ) → IsSorted (new hash n replicas).ring
  unfolding new
  ring-IsSorted n replicas = sort_by_key-IsSorted (all_nodes hash replicas 0 n)

  choice :
      (ring : List Entry) (key : ℕ) (r : SearchResult)
      → IsSorted ring
      → 0 < length ring
      → Answers ring key r
      → (p : ℕ) × (p < length ring)
        × IsSuccessor ring key p
        × ((elim r [
          | found pos ↦ upstream_at ring pos
          | missing pos ↦ if leb (length ring) pos then upstream_at ring 0 else upstream_at ring pos
        ])
            ≡ upstream_at ring p)
  choice ring key (found pos) s h (l, e) = (pos, l, inl (omega arith, λ j k g. omega arith), refl)
  choice ring key (missing pos) s h (l, under, over) = elim (Bool-cases (leb (length ring) pos)) [
    | inl past ↦ rw past (0, h, inr (refl, λ j k. under j (ground arith)), refl)
    | inr at ↦ rw at (
      pos,
      ground arith,
      inl (
        omega (arith, over pos (omega arith) (ground arith)),
        λ j k g. elim (dec_lt j pos) [
          | yes less ↦ absurd (omega (arith, under j less))
          | no more ↦ hash_at_mono ring pos j s (omega arith) k
        ],
      ),
      refl,
    )
  ]

  -- On a pool and a replica count that are not zero, a key is sent to the owner of the virtual node
  -- that succeeds its hash on the ring, and that is an upstream of the pool.
  pub next_index_for_key-IsSuccessor :
      (n replicas m : ℕ) (key : String)
      → 0 < n
      → 0 < replicas
      → (p i : ℕ) × (next_index_for_key hash (new hash n replicas) m key ≡ some i)
        × (i < n)
        × (upstream_at (new hash n replicas).ring p ≡ some i)
        × IsSuccessor (new hash n replicas).ring (hash key) p
  unfolding next_index_for_key
  next_index_for_key-IsSuccessor n replicas m key h k =
      let ring = (new hash n replicas).ring in
      let inside : All (λ y. y.1 < n) ring = ring-All n replicas in
      let sorted : IsSorted ring = ring-IsSorted n replicas in
      let (p, l, next, e) =
        choice ring (hash key) (binary_search ring (hash key)) sorted
          (grind (arith, length-ring n replicas)) (binary_search-Answers ring (hash key) sorted) in
      let (i, own, small) = upstream_at_of_lt ring n p inside l in (p, i, e ∙ own, small, own, next)

  -- A sorted ring with an entry answers every key.
  pub next_index_for_key_total :
      (b : ConsistentHash) (m : ℕ) (key : String)
      → 0 < length b.ring
      → IsSorted b.ring
      → (i : ℕ) × (next_index_for_key hash b m key ≡ some i)
  unfolding next_index_for_key
  next_index_for_key_total b m key h s =
      let (p, l, next, e) =
        choice b.ring (hash key) (binary_search b.ring (hash key)) s h
          (binary_search-Answers b.ring (hash key) s) in
      let (i, own) = upstream_at_total b.ring p l in (i, e ∙ own)
