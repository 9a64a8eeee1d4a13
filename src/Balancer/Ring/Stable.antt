-- ===== src/Balancer/Ring/Stable.antt =====
-- What another upstream at the end of the pool changes for the keys on the ring of src/balancer.rs.
use Prim.Native.String.{String}
use l7_proxy.Base.{
  ℕ, zero, suc, ◌+◌, ◌≤◌, ◌<◌, ◌≡◌, refl, ap, sym, subst, ◌∙◌, ◌⊎◌, inl, inr, List, [], ◌∷◌, ◌++◌,
  some, arith, leb, length, All, All-append, In, Bool-cases, ℕ_discrete,
}
use mathlib.Core.Option.{some-injective}
use l7_proxy.Balancer.Ring.Sorting.{
  Entry, IsSorted, hash_at, hash_at_mono, insert_by_key, sort_by_key, sort_by_key-All,
}
use l7_proxy.Balancer.Ring.{vnode_key, nodes_of, all_nodes, new, upstream_at, next_index_for_key}
use l7_proxy.Balancer.Ring.Successor.{IsSuccessor, ring-IsSorted, next_index_for_key-IsSuccessor}

In-append_left : {A : Type 0} (a : A) (xs ys : List A) → In a xs → In a (xs ++ ys)
In-append_left a [] ys h = elim h [ ]
In-append_left a (x ∷ xs) ys (inl e) = inl e
In-append_left a (x ∷ xs) ys (inr h) = inr (In-append_left a xs ys h)

In-append_right : {A : Type 0} (a : A) (xs ys : List A) → In a ys → In a (xs ++ ys)
In-append_right a [] ys h = h
In-append_right a (x ∷ xs) ys h = inr (In-append_right a xs ys h)

-- Sorting loses no entry.
In-insert_by_key : (e x : Entry) (xs : List Entry) → (x ≡ e) ⊎ In e xs → In e (insert_by_key x xs)
unfolding insert_by_key
In-insert_by_key e x [] h = h
In-insert_by_key e x (y ∷ ys) h = elim (Bool-cases (leb x.0 y.0)) [
  | inl le ↦ rw le h
  | inr gt ↦ rw gt (elim h [
    | inl here ↦ inr (In-insert_by_key e x ys (inl here))
    | inr (inl next) ↦ inl next
    | inr (inr later) ↦ inr (In-insert_by_key e x ys (inr later))
  ])
]

In-sort_by_key : (e : Entry) (xs : List Entry) → In e xs → In e (sort_by_key xs)
unfolding sort_by_key
In-sort_by_key e [] h = elim h [ ]
In-sort_by_key e (x ∷ xs) (inl here) = In-insert_by_key e x (sort_by_key xs) (inl here)
In-sort_by_key e (x ∷ xs) (inr later) =
    In-insert_by_key e x (sort_by_key xs) (inr (In-sort_by_key e xs later))

upstream_at-lt : (ring : List Entry) (p : ℕ) {i : ℕ} → upstream_at ring p ≡ some i → p < length ring
upstream_at-lt [] p e = absurd (cc e)
upstream_at-lt (x ∷ ring) zero e = omega arith
upstream_at-lt (x ∷ ring) (suc p) e = omega (arith, upstream_at-lt ring p e)

-- Two sorted rings have the same hash at the successors of a key, when each has a place with the
-- other's hash.
successors-same :
    (key : ℕ) (ring ring' : List Entry) (p p' q q' : ℕ)
    → IsSorted ring
    → IsSorted ring'
    → IsSuccessor ring key p
    → IsSuccessor ring' key p'
    → (q < length ring) × (hash_at ring q ≡ hash_at ring' p')
    → (q' < length ring') × (hash_at ring' q' ≡ hash_at ring p)
    → hash_at ring p ≡ hash_at ring' p'
successors-same key ring ring' p p' q q' s s' (inl (le, least)) (inl (le', least')) (l, e)
      (l', e') =
    omega (arith, least q l, least' q' l')
successors-same key ring ring' p p' q q' s s' (inl (le, least)) (inr (first', below')) (l, e)
      (l', e') =
    absurd (omega (arith, below' q' l'))
successors-same key ring ring' p p' q q' s s' (inr (first, below)) (inl (le', least')) (l, e)
      (l', e') =
    absurd (omega (arith, below q l))
successors-same key ring ring' p p' q q' s s' (inr (first, below)) (inr (first', below')) (l, e)
      (l', e') =
    omega (
      arith,
      ap (hash_at ring) first,
      ap (hash_at ring') first',
      hash_at_mono ring 0 q s (omega arith) l,
      hash_at_mono ring' 0 q' s' (omega arith) l',
    )

-- A place of the ring with this hash and this upstream.
abbrev Place : List Entry → Entry → Type 0
Place ring e =
    (p : ℕ) × (p < length ring) × (hash_at ring p ≡ e.0) × (upstream_at ring p ≡ some e.1)

In-Place : (ring : List Entry) (e : Entry) → In e ring → Place ring e
In-Place [] e h = elim h [ ]
In-Place (x ∷ ring) e (inl here) =
    (zero, omega arith, ap (λ (y : Entry). y.0) here, ap (λ (y : Entry). some y.1) here)
In-Place (x ∷ ring) e (inr later) =
    let (p, l, h, u) = In-Place ring e later in (suc p, omega arith, h, u)

All-at :
    (P : Entry → Type 0) (ring : List Entry) (p i : ℕ)
    → All P ring
    → p < length ring
    → upstream_at ring p ≡ some i
    → P (hash_at ring p, i)
All-at P [] p i a l e = elim l [ ]
All-at P (x ∷ ring) zero i a l e = subst (λ u. P (x.0, u)) (some-injective _ _ e) a.0
All-at P (x ∷ ring) (suc p) i a l e = All-at P ring p i a.1 (omega arith) e

module _ (hash : String → ℕ) (replicas : ℕ) where
  -- A virtual node of one of the first `n` upstreams.
  abbrev IsNode : ℕ → Entry → Type 0
  IsNode n e = (r : ℕ) × (r < replicas) × (e.1 < n) × (e.0 ≡ hash (vnode_key e.1 r))

  nodes_of-IsNode :
      (n i r left : ℕ) → i < n → r + left ≤ replicas → All (IsNode n) (nodes_of hash i r left)
  unfolding nodes_of
  nodes_of-IsNode n i r zero h l = tt
  nodes_of-IsNode n i r (suc left) h l =
      ((r, omega arith, h, refl), nodes_of-IsNode n i (suc r) left h (omega arith))

  all_nodes-IsNode : (n i left : ℕ) → i + left ≤ n → All (IsNode n) (all_nodes hash replicas i left)
  unfolding all_nodes
  all_nodes-IsNode n i zero l = tt
  all_nodes-IsNode n i (suc left) l =
      All-append _ (nodes_of hash i 0 replicas) _
        (nodes_of-IsNode n i 0 replicas (omega arith) (omega arith))
        (all_nodes-IsNode n (suc i) left (omega arith))

  nodes_of-In :
      (i s r left : ℕ)
      → s ≤ r
      → r < s + left
      → In (hash (vnode_key i r), i) (nodes_of hash i s left)
  unfolding nodes_of
  nodes_of-In i s r zero l h = absurd (omega arith)
  nodes_of-In i s r (suc left) l h = elim (ℕ_discrete s r) [
    | yes e ↦ inl (ap (λ (q : ℕ). (hash (vnode_key i q), i)) e)
    | no more ↦ inr (nodes_of-In i (suc s) r left (omega arith) (omega arith))
  ]

  all_nodes-In :
      (i a r left : ℕ)
      → a ≤ i
      → i < a + left
      → r < replicas
      → In (hash (vnode_key i r), i) (all_nodes hash replicas a left)
  unfolding all_nodes
  all_nodes-In i a r zero l h k = absurd (omega arith)
  all_nodes-In i a r (suc left) l h k = elim (ℕ_discrete a i) [
    | yes e ↦ rw e (
        In-append_left _ (nodes_of hash i 0 replicas) _
          (nodes_of-In i 0 r replicas (omega arith) (omega arith)))
    | no more ↦
        In-append_right _ (nodes_of hash a 0 replicas) _
          (all_nodes-In i (suc a) r left (omega arith) (omega arith) k)
  ]

  -- The entries of the ring are the virtual nodes of the pool, all of them.
  ring-IsNode : (n : ℕ) → All (IsNode n) (new hash n replicas).ring
  unfolding new
  ring-IsNode n = sort_by_key-All _ _ (all_nodes-IsNode n 0 n (omega arith))

  IsNode-Place : (n : ℕ) (e : Entry) → IsNode n e → Place (new hash n replicas).ring e
  unfolding new
  IsNode-Place n e (r, k, h, same) = In-Place _ e (
      In-sort_by_key e _ (
        subst (λ x. In (x, e.1) (all_nodes hash replicas 0 n)) (sym same)
          (all_nodes-In e.1 0 r n (omega arith) (omega arith) k)))

  -- No virtual nodes of two of the first `n` upstreams have the same hash.
  abbrev pub Apart : ℕ → Type 0
  Apart n =
      (i j r s : ℕ)
      → i < n
      → j < n
      → r < replicas
      → s < replicas
      → hash (vnode_key i r) ≡ hash (vnode_key j s)
      → i ≡ j

  IsNode-suc : (n : ℕ) (e : Entry) → IsNode n e → IsNode (suc n) e
  IsNode-suc n e (r, k, h, same) = (r, k, omega arith, same)

  -- On a pool that is not empty and gets another upstream at its end, a key stays where it was, or it
  -- goes to the new upstream, if no virtual nodes of two upstreams have the same hash.
  pub next_index_for_key-stays :
      (n m m' : ℕ) (key : String)
      → 0 < n
      → 0 < replicas
      → Apart (suc n)
      → (next_index_for_key hash (new hash (suc n) replicas) m' key ≡ some n)
        ⊎ (next_index_for_key hash (new hash (suc n) replicas) m' key
            ≡ next_index_for_key hash (new hash n replicas) m key)
  next_index_for_key-stays n m m' key some_left some_nodes apart =
      let ring = (new hash n replicas).ring in
      let ring' = (new hash (suc n) replicas).ring in
      let (p, j, e, inside, own, next) =
        next_index_for_key-IsSuccessor hash n replicas m key some_left some_nodes in
      let (p', i, e', inside', own', next') =
        next_index_for_key-IsSuccessor hash (suc n) replicas m' key (omega arith) some_nodes in
      elim (ℕ_discrete i n) [
        | yes newest ↦ inl (e' ∙ ap (λ (u : ℕ). some u) newest)
        | no older ↦
            let (r, k, _, node) =
              All-at (IsNode n) ring p j (ring-IsNode n) (upstream_at-lt ring p own) own in
            let (r', k', _, node') =
              All-at (IsNode (suc n)) ring' p' i (ring-IsNode (suc n))
                (upstream_at-lt ring' p' own') own' in
            let (q, l, here, _) =
              IsNode-Place n (hash_at ring' p', i) (r', k', omega arith, node') in
            let (q', l', here', _) =
              IsNode-Place (suc n) (hash_at ring p, j) (r, k, omega arith, node) in
            let same =
              successors-same (hash key) ring ring' p p' q q' (ring-IsSorted hash n replicas)
                (ring-IsSorted hash (suc n) replicas) next next' (l, here) (l', here') in
            let equal : i ≡ j =
              apart i j r' r (omega arith) (omega arith) k' k (sym node' ∙ sym same ∙ node) in
            inr (e' ∙ ap (λ (u : ℕ). some u) equal ∙ sym e)
      ]
