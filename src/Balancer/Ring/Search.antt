-- ===== src/Balancer/Ring/Search.antt =====
-- `binary_search_by_key` of the standard library on the ring, by the hash.
use Prim.Native.Nat.{compare, Ordering}
use l7_proxy.Base.{
  ℕ, zero, suc, ◌+◌, ◌-◌, ◌/◌, ◌≤◌, ◌<◌, ◌≡◌, refl, sym, ap, subst, ◌⊎◌, inl, inr, List, [], ◌∷◌,
  arith, leb, ltb, if◌then◌else◌, length, Bool-cases, ltb→lt, leb→le,
}
use l7_proxy.Balancer.Ring.Sorting.{Entry, IsSorted, hash_at, hash_at_mono}

-- `Ok(pos)` and `Err(pos)`.
pub data SearchResult : Type 0 where
  found : ℕ → SearchResult
  missing : ℕ → SearchResult

-- The halving loop: the last place whose hash is at most `key`, or the first place. The fuel is
-- the size of the range.
halve : ℕ → List Entry → ℕ → ℕ → ℕ → ℕ
halve zero ring key base size = base
halve (suc fuel) ring key base size =
    let mid = base + size / 2 in
    let rest =
      halve fuel ring key (if ltb key (hash_at ring mid) then base else mid) (size - size / 2) in
    if leb size 1 then base else rest

chosen : Ordering → ℕ → SearchResult
chosen Ordering.eq base = found base
chosen Ordering.lt base = missing (base + 1)
chosen Ordering.gt base = missing base

answer : ℕ → ℕ → ℕ → SearchResult
answer here key base = chosen (compare here key) base

unfoldable pub binary_search : List Entry → ℕ → SearchResult
unfolding halve answer chosen
binary_search [] key = missing 0
binary_search (x ∷ xs) key =
    let base = halve (length (x ∷ xs)) (x ∷ xs) key 0 (length (x ∷ xs)) in
    answer (hash_at (x ∷ xs) base) key base

-- The range `[base, base + size)` that still has to be looked at.
record Range (ring : List Entry) (key base size : ℕ) : Type 0 where
  some_left : 0 < size
  inside : base + size ≤ length ring
  start : (base ≡ 0) ⊎ (hash_at ring base ≤ key)
  above : (j : ℕ) → base + size ≤ j → j < length ring → key < hash_at ring j

-- One round of the loop keeps it.
Range-halve :
    (ring : List Entry) (key base size : ℕ)
    → IsSorted ring
    → 1 < size
    → Range ring key base size
    → Range ring key
        (if ltb key (hash_at ring (base + size / 2)) then base else base + size / 2)
        (size - size / 2)
Range-halve ring key base size s more r =
    elim (Bool-cases (ltb key (hash_at ring (base + size / 2)))) [
      | inl over ↦ rw over (record {
        some_left = omega arith;
        inside = omega (arith, r.inside);
        start = r.start;
        above = λ j l h.
            omega (arith, ltb→lt _ _ over, hash_at_mono ring (base + size / 2) j s (omega arith) h);
      })
      | inr under ↦ rw under (record {
        some_left = omega arith;
        inside = omega (arith, r.inside);
        start = inr (ground arith);
        above = λ j l h. r.above j (omega arith) h;
      })
    ]

halve-Range :
    (fuel : ℕ) (ring : List Entry) (key base size : ℕ)
    → IsSorted ring
    → size ≤ fuel
    → Range ring key base size
    → Range ring key (halve fuel ring key base size) 1
unfolding halve
halve-Range zero ring key base size s h r = absurd (omega (arith, r.some_left))
halve-Range (suc fuel) ring key base size s h r = elim (Bool-cases (leb size 1)) [
  | inl done ↦ let e : size ≡ 1 = omega (arith, leb→le _ _ done, r.some_left) in rw done (rw e at r)
  | inr more ↦
      let wide : 1 < size = ground arith in
      rw more (
        halve-Range fuel ring key _ (size - size / 2) s (omega arith)
          (Range-halve ring key base size s wide r))
]

-- What the search answers on a sorted ring: a place that holds the key, or the place where it
-- would be inserted.
abbrev pub Answers : List Entry → ℕ → SearchResult → Type 0
Answers ring key (found p) = (p < length ring) × (hash_at ring p ≡ key)
Answers ring key (missing p) =
    (p ≤ length ring)
    × ((j : ℕ) → j < p → hash_at ring j < key)
    × ((j : ℕ) → p ≤ j → j < length ring → key < hash_at ring j)

Ordering-cases :
    (a b : ℕ)
    → ((a ≡ b) × (compare a b ≡ Ordering.eq))
      ⊎ ((a < b) × (compare a b ≡ Ordering.lt))
      ⊎ ((b < a) × (compare a b ≡ Ordering.gt))
Ordering-cases a b = ground arith

answer-Answers :
    (ring : List Entry) (key base : ℕ)
    → IsSorted ring
    → Range ring key base 1
    → Answers ring key (answer (hash_at ring base) key base)
unfolding answer chosen
answer-Answers ring key base s r = elim (Ordering-cases (hash_at ring base) key) [
  | inl e ↦
      subst (Answers ring key) (sym (ap (λ c. chosen c base) e.1)) (omega (arith, r.inside), e.0)
  | inr (inl l) ↦ subst (Answers ring key) (sym (ap (λ c. chosen c base) l.1)) (
    omega (arith, r.inside),
    λ j h. omega (arith, hash_at_mono ring j base s (omega arith) (omega (arith, r.inside))),
    λ j h k. r.above j h k,
  )
  | inr (inr g) ↦
      let first : base ≡ 0 = ground (arith, r.start) in
      subst (Answers ring key) (sym (ap (λ c. chosen c base) g.1)) (
        omega (arith, r.inside),
        λ j h. absurd (omega arith),
        λ j h k. omega (arith, hash_at_mono ring base j s h k),
      )
]

-- On a sorted ring `binary_search` ends within its fuel, with a place that holds the key or, if there
-- is none, the place where the key would be inserted.
pub binary_search-Answers :
    (ring : List Entry) (key : ℕ) → IsSorted ring → Answers ring key (binary_search ring key)
unfolding binary_search
binary_search-Answers [] key s =
    (omega arith, λ j h. absurd (omega arith), λ j h l. absurd (omega arith))
binary_search-Answers (x ∷ xs) key s = answer-Answers (x ∷ xs) key _ s (
    halve-Range (length (x ∷ xs)) (x ∷ xs) key 0 (length (x ∷ xs)) s (omega arith) (record {
      some_left = omega arith;
      inside = omega arith;
      start = inl refl;
      above = λ j h l. absurd (omega arith);
    }))
