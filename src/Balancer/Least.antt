-- ===== src/Balancer/Least.antt =====
-- src/balancer.rs, `LeastConnections`: active requests per upstream, the first smallest is chosen.
use l7_proxy.Base.{
  ℕ, zero, suc, ◌+◌, ◌-◌, ◌%◌, ◌≤◌, ◌<◌, ◌≡◌, refl, List, [], ◌∷◌, Option, none, some, arith, min,
  Bool-cases, ltb, ltb→lt, dec_lt, inl, inr, if◌then◌else◌, wrap_add, u64_mod, length, set,
  replicate, length-set, length-replicate, take, get_or, get_or-take, length-take, get_or-set_self,
  set-set, set-get_or, subst, subst₂, ap, ◌∙◌,
}

pub record LeastConnections : Type 0 where
  pub active : List ℕ

unfoldable pub new : ℕ → LeastConnections
new pool_size = record { active = replicate pool_size 0 }

-- The loop of `next_index` over the rest of the counters, from place `i` on.
scan : List ℕ → ℕ → ℕ → ℕ → ℕ
scan [] i min_idx min_val = min_idx
scan (val ∷ rest) i min_idx min_val =
    scan rest (suc i) (if ltb val min_val then i else min_idx)
      (if ltb val min_val then val else min_val)

-- `self.active[0]` panics on an empty list.
choose : List ℕ → ℕ → Option ℕ
unfolding scan
choose [] pool_size = none
choose (first ∷ rest) pool_size =
    some (scan (take (min pool_size (suc (length rest)) - 1) rest) 1 0 first)

unfoldable pub next_index : LeastConnections → ℕ → Option ℕ × LeastConnections
unfolding choose
next_index b pool_size = (choose b.active pool_size, b)

-- `fetch_add(1)` and `fetch_sub(1)` on a counter of 64 bits.
unfoldable pub record_start : LeastConnections → ℕ → LeastConnections
record_start b index =
    if ltb index (length b.active)
    then record b { active = set b.active index (wrap_add (get_or b.active index 0) 1) }
    else b

unfoldable pub record_done : LeastConnections → ℕ → LeastConnections
record_done b index =
    if ltb index (length b.active)
    then record b {
      active = set b.active index ((get_or b.active index 0 + u64_mod - 1) % u64_mod);
    }
    else b

-- Among the first `n` entries, `i` is the first place of a smallest one.
pub record FirstMin (xs : List ℕ) (n i : ℕ) : Type 0 where
  pub within : i < n
  pub least : (j : ℕ) → j < n → get_or xs i 0 ≤ get_or xs j 0
  pub first : (j : ℕ) → j < i → get_or xs i 0 < get_or xs j 0

-- One round of the loop.
FirstMin-suc :
    (xs : List ℕ) (i m : ℕ)
    → FirstMin xs i m
    → FirstMin xs (suc i) (if ltb (get_or xs i 0) (get_or xs m 0) then i else m)
FirstMin-suc xs i m b = elim (Bool-cases (ltb (get_or xs i 0) (get_or xs m 0))) [
  | inl less ↦ rw less (record {
    within = omega arith;
    least = λ j h. elim (dec_lt j i) [
      | yes l ↦ ground (arith, b.least j l)
      | no n ↦ let e : j ≡ i = omega arith in rw e (omega arith)
    ];
    first = λ j h. ground (arith, b.least j h);
  })
  | inr more ↦ rw more (record {
    within = omega (arith, b.within);
    least = λ j h. elim (dec_lt j i) [
      | yes l ↦ b.least j l
      | no n ↦ let e : j ≡ i = omega arith in rw e (ground arith)
    ];
    first = b.first;
  })
]

scan-FirstMin :
    (xs rest : List ℕ) (i m : ℕ)
    → FirstMin xs i m
    → ((k : ℕ) → k < length rest → get_or rest k 0 ≡ get_or xs (i + k) 0)
    → FirstMin xs (i + length rest) (scan rest i m (get_or xs m 0))
unfolding scan
scan-FirstMin xs [] i m b agree = let e : i + 0 ≡ i = omega arith in rw e b
scan-FirstMin xs (x ∷ rest) i m b agree =
    subst₂ (FirstMin xs) (omega arith) (rw here (ap (scan rest (suc i) next) value))
      (scan-FirstMin xs rest (suc i) next (FirstMin-suc xs i m b) later)
  where
    next : ℕ
    next = if ltb (get_or xs i 0) (get_or xs m 0) then i else m

    here : x ≡ get_or xs i 0
    here = agree 0 (omega arith) ∙ ap (λ k. get_or xs k 0) (omega arith)

    value :
        get_or xs next 0
        ≡ (if ltb (get_or xs i 0) (get_or xs m 0) then get_or xs i 0 else get_or xs m 0)
    value = elim (Bool-cases (ltb (get_or xs i 0) (get_or xs m 0))) [
      | inl less ↦ rw less
      | inr more ↦ rw more
    ]

    later : (k : ℕ) → k < length rest → get_or rest k 0 ≡ get_or xs (suc i + k) 0
    later k h = agree (suc k) (omega arith) ∙ ap (λ j. get_or xs j 0) (omega arith)

choose-FirstMin :
    (xs : List ℕ) (n : ℕ)
    → 0 < n
    → 0 < length xs
    → (i : ℕ) × (choose xs n ≡ some i) × FirstMin xs (min n (length xs)) i
unfolding choose
choose-FirstMin [] n h k = absurd (omega arith)
choose-FirstMin (x ∷ rest) n h k = (
  _,
  refl,
  subst (λ l. FirstMin (x ∷ rest) l (scan (take bound rest) 1 0 x))
      (omega (arith, length-take bound rest))
      (scan-FirstMin (x ∷ rest) (take bound rest) 1 0
        (record { within = omega arith; least = zeroth; first = λ j l. absurd (omega arith) })
        shifted),
)
  where
    bound : ℕ
    bound = min n (suc (length rest)) - 1

    zeroth : (j : ℕ) → j < 1 → x ≤ get_or (x ∷ rest) j 0
    zeroth zero l = omega arith
    zeroth (suc j) l = absurd (omega arith)

    shifted :
        (j : ℕ)
        → j < length (take bound rest)
        → get_or (take bound rest) j 0 ≡ get_or (x ∷ rest) (1 + j) 0
    shifted j l =
        get_or-take bound rest j 0 (omega (arith, length-take bound rest))
        ∙ ap (λ i. get_or (x ∷ rest) i 0) {x = suc j} (omega arith)

-- On a pool and a list of counters that are not empty the choice is the first upstream with the fewest active requests
-- among those of the pool, and the counters stay as they are.
pub next_index-FirstMin :
    (b : LeastConnections) (n : ℕ)
    → 0 < n
    → 0 < length b.active
    → (i : ℕ) × ((next_index b n).0 ≡ some i)
      × FirstMin b.active (min n (length b.active)) i
      × ((next_index b n).1 ≡ b)
unfolding next_index
next_index-FirstMin b n h k =
    let (i, e, least) = choose-FirstMin b.active n h k in (i, e, least, refl)

-- With a counter of 64 bits at the index, a request that starts and finishes leaves every counter as
-- it was, also one that wraps.
pub record_done-record_start :
    (b : LeastConnections) (i : ℕ)
    → get_or b.active i 0 < u64_mod
    → record_done (record_start b i) i ≡ b
unfolding record_done record_start
record_done-record_start b i small = elim (Bool-cases (ltb i (length b.active))) [
  | inl inside ↦
      rw
        (
          inside,
          length-set b.active i _,
          inside,
          get_or-set_self b.active i _ 0 (ltb→lt _ _ inside),
        )
        (ap {B = LeastConnections} (λ xs. record { active = xs })
          (set-set b.active i _ _ ∙ rw back (set-get_or b.active i 0)))
  | inr outside ↦ rw (outside, outside)
]
  where
    back : (wrap_add (get_or b.active i 0) 1 + u64_mod - 1) % u64_mod ≡ get_or b.active i 0
    back = omega arith

pub length-new : (n : ℕ) → length (new n).active ≡ n
unfolding new
length-new n = length-replicate n 0

pub length-record_start :
    (b : LeastConnections) (i : ℕ) → length (record_start b i).active ≡ length b.active
unfolding record_start
length-record_start b i = elim (Bool-cases (ltb i (length b.active))) [
  | inl inside ↦ rw inside (length-set b.active i _)
  | inr outside ↦ rw outside
]

pub length-record_done :
    (b : LeastConnections) (i : ℕ) → length (record_done b i).active ≡ length b.active
unfolding record_done
length-record_done b i = elim (Bool-cases (ltb i (length b.active))) [
  | inl inside ↦ rw inside (length-set b.active i _)
  | inr outside ↦ rw outside
]

pub next_index-active : (b : LeastConnections) (n : ℕ) → (next_index b n).1.active ≡ b.active
unfolding next_index
next_index-active b n = refl
