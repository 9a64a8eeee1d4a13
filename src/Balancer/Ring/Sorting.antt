-- ===== src/Balancer/Ring/Sorting.antt =====
-- `sort_by_key` of the standard library on (hash, upstream) pairs: a stable sort by the hash.
use l7_proxy.Base.{
  ℕ, zero, suc, ◌≤◌, ◌<◌, ◌≡◌, refl, inl, inr, List, [], ◌∷◌, arith, leb, if◌then◌else◌, length,
  All, Bool-cases, leb→le,
}

abbrev pub Entry : Type 0
Entry = ℕ × ℕ

unfoldable pub insert_by_key : Entry → List Entry → List Entry
insert_by_key x [] = x ∷ []
insert_by_key x (y ∷ ys) = if leb x.0 y.0 then x ∷ y ∷ ys else y ∷ insert_by_key x ys

unfoldable pub sort_by_key : List Entry → List Entry
unfolding insert_by_key
sort_by_key [] = []
sort_by_key (x ∷ xs) = insert_by_key x (sort_by_key xs)

abbrev pub IsSorted : List Entry → Type 0
IsSorted [] = Unit
IsSorted (x ∷ xs) = All (λ y. x.0 ≤ y.0) xs × IsSorted xs

-- The hash at a place of the ring, 0 outside it.
abbrev pub hash_at : List Entry → ℕ → ℕ
hash_at [] p = 0
hash_at (x ∷ xs) zero = x.0
hash_at (x ∷ xs) (suc p) = hash_at xs p

All-mono : (a b : ℕ) (xs : List Entry) → a ≤ b → All (λ y. b ≤ y.0) xs → All (λ y. a ≤ y.0) xs
All-mono a b [] l h = tt
All-mono a b (x ∷ xs) l h = (omega arith, All-mono a b xs l h.1)

insert_by_key-All :
    (a : ℕ) (x : Entry) (xs : List Entry)
    → a ≤ x.0
    → All (λ y. a ≤ y.0) xs
    → All (λ y. a ≤ y.0) (insert_by_key x xs)
unfolding insert_by_key
insert_by_key-All a x [] l h = (l, tt)
insert_by_key-All a x (y ∷ ys) l h = ground (arith, insert_by_key-All a x ys l h.1)

insert_by_key-IsSorted : (x : Entry) (xs : List Entry) → IsSorted xs → IsSorted (insert_by_key x xs)
unfolding insert_by_key
insert_by_key-IsSorted x [] h = (tt, tt)
insert_by_key-IsSorted x (y ∷ ys) h = elim (Bool-cases (leb x.0 y.0)) [
  | inl le ↦ rw le ((leb→le _ _ le, All-mono x.0 y.0 ys (leb→le _ _ le) h.0), h)
  | inr gt ↦ rw gt (insert_by_key-All y.0 x ys (ground arith) h.0, insert_by_key-IsSorted x ys h.1)
]

-- The ring is in order of hash.
pub sort_by_key-IsSorted : (xs : List Entry) → IsSorted (sort_by_key xs)
unfolding sort_by_key
sort_by_key-IsSorted [] = tt
sort_by_key-IsSorted (x ∷ xs) = insert_by_key-IsSorted x (sort_by_key xs) (sort_by_key-IsSorted xs)

insert_by_key-All_iff {κ} :
    (P : Entry → Type κ) (x : Entry) (xs : List Entry) → P x → All P xs → All P (insert_by_key x xs)
unfolding insert_by_key
insert_by_key-All_iff P x [] p h = (p, tt)
insert_by_key-All_iff P x (y ∷ ys) p h = elim (Bool-cases (leb x.0 y.0)) [
  | inl le ↦ rw le (p, h)
  | inr gt ↦ rw gt (h.0, insert_by_key-All_iff P x ys p h.1)
]

-- What holds of all nodes holds of all entries of the ring.
pub sort_by_key-All {κ} : (P : Entry → Type κ) (xs : List Entry) → All P xs → All P (sort_by_key xs)
unfolding sort_by_key
sort_by_key-All P [] h = tt
sort_by_key-All P (x ∷ xs) h = insert_by_key-All_iff P x _ h.0 (sort_by_key-All P xs h.1)

length-insert_by_key : (x : Entry) (xs : List Entry) → length (insert_by_key x xs) ≡ suc (length xs)
unfolding insert_by_key
length-insert_by_key x [] = refl
length-insert_by_key x (y ∷ ys) = ground (arith, length-insert_by_key x ys)

pub length-sort_by_key : (xs : List Entry) → length (sort_by_key xs) ≡ length xs
unfolding sort_by_key
length-sort_by_key [] = refl
length-sort_by_key (x ∷ xs) =
    omega (arith, length-insert_by_key x (sort_by_key xs), length-sort_by_key xs)

All-hash_at :
    (a : ℕ) (xs : List Entry) (j : ℕ) → All (λ y. a ≤ y.0) xs → j < length xs → a ≤ hash_at xs j
All-hash_at a [] j h l = elim l [ ]
All-hash_at a (x ∷ xs) zero h l = h.0
All-hash_at a (x ∷ xs) (suc j) h l = All-hash_at a xs j h.1 (omega arith)

-- Later places of a sorted ring have no smaller hash.
pub hash_at_mono :
    (xs : List Entry) (i j : ℕ) → IsSorted xs → i ≤ j → j < length xs → hash_at xs i ≤ hash_at xs j
hash_at_mono [] i j s l h = elim h [ ]
hash_at_mono (x ∷ xs) zero zero s l h = omega arith
hash_at_mono (x ∷ xs) zero (suc j) s l h = All-hash_at x.0 xs j s.0 (omega arith)
hash_at_mono (x ∷ xs) (suc i) zero s l h = absurd (omega arith)
hash_at_mono (x ∷ xs) (suc i) (suc j) s l h = hash_at_mono xs i j s.1 (omega arith) (omega arith)
