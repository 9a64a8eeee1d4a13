-- ===== src/Balancer/Cycle.antt =====
-- Sums over consecutive calls of a counter-driven choice, for the round-robin balancers.
use native.Mathlib.Nat.{zero-mul, mod-eq_of_lt, add-mod_right}
use l7_proxy.Base.{
  ℕ, zero, suc, ◌+◌, ◌*◌, ◌%◌, ◌<◌, ◌≤◌, ◌≡◌, refl, ap, Option, none, some, List, [], ◌∷◌, arith,
  nat_beq, if◌then◌else◌, wrap_add, u64_mod, length, get_elem?, count,
}

-- `a % b`, which panics at `b = 0`.
unfoldable pub checked_rem : ℕ → ℕ → Option ℕ
checked_rem a b = if nat_beq b 0 then none else some (a % b)

pub checked_rem_periodic : (i n : ℕ) → checked_rem (i + n) n ≡ checked_rem i n
unfolding checked_rem
checked_rem_periodic i n = rw (add-mod_right i n)

pub checked_rem_of_lt : (i n : ℕ) → i < n → checked_rem i n ≡ some i
unfolding checked_rem
checked_rem_of_lt i n h = ground (arith, mod-eq_of_lt h)

pub checked_rem_of_pos : (i n : ℕ) → 0 < n → checked_rem i n ≡ some (i % n)
unfolding checked_rem
checked_rem_of_pos i n h = ground arith

-- `f c + f (c + 1) + …`, `k` terms.
pub tally : (ℕ → ℕ) → ℕ → ℕ → ℕ
tally f c zero = 0
tally f c (suc k) = f c + tally f (suc c) k

pub tally-add : (f : ℕ → ℕ) (c a b : ℕ) → tally f c (a + b) ≡ tally f c a + tally f (c + a) b
unfolding tally
tally-add f c zero b =
    let here : 0 + b ≡ b = omega arith in
    let at : c + 0 ≡ c = omega arith in rw (here, at) (omega arith)
tally-add f c (suc a) b =
    let here : suc a + b ≡ suc (a + b) = omega arith in
    let at : c + suc a ≡ suc c + a = omega arith in
    rw (here, at) (omega (arith, tally-add f (suc c) a b))

-- Terms that agree on the window give one sum.
pub tally_congr :
    (f g : ℕ → ℕ) (c k : ℕ) → ((i : ℕ) → i < c + k → f i ≡ g i) → tally f c k ≡ tally g c k
unfolding tally
tally_congr f g c zero h = refl
tally_congr f g c (suc k) h =
    omega (arith, h c (omega arith), tally_congr f g (suc c) k (λ i l. h i (omega arith)))

-- One value is met once in a window that holds it, and not at all above it.
tally_above : (x c k : ℕ) → x < c → tally (λ i. if nat_beq i x then 1 else 0) c k ≡ 0
unfolding tally
tally_above x c zero h = refl
tally_above x c (suc k) h = ground (arith, tally_above x (suc c) k)

pub tally_single :
    (x c k : ℕ) → c ≤ x → x < c + k → tally (λ i. if nat_beq i x then 1 else 0) c k ≡ 1
unfolding tally
tally_single x c zero l h = absurd (omega arith)
tally_single x c (suc k) l h = ground (arith, tally_above x (suc c) k, tally_single x (suc c) k)

-- A function of period `p`.
abbrev pub Periodic : (ℕ → ℕ) → ℕ → Type 0
Periodic f p = (i : ℕ) → f (i + p) ≡ f i

-- A full period has the same sum wherever it begins.
pub tally-period : (f : ℕ → ℕ) (p : ℕ) → Periodic f p → (c : ℕ) → tally f c p ≡ tally f 0 p
unfolding tally
tally-period f p per zero = refl
tally-period f p per (suc c) =
    let last : tally f (c + p) 1 ≡ f (c + p) + 0 = refl in
    let first : tally f c (1 + p) ≡ tally f c (p + 1) = ap (tally f c) (omega arith) in
    let more : tally f (c + 1) p ≡ tally f (suc c) p = ap (λ d. tally f d p) (omega arith) in
    omega (
      arith,
      per c,
      last,
      first,
      more,
      tally-add f c 1 p,
      tally-add f c p 1,
      tally-period f p per c,
    )

-- So `m` periods have `m` times the sum of one.
pub tally-periods :
    (f : ℕ → ℕ) (p : ℕ) → Periodic f p → (c m : ℕ) → tally f c (m * p) ≡ m * tally f 0 p
unfolding tally
tally-periods f p per c zero = simp zero-mul
tally-periods f p per c (suc m) =
    let more : tally f c (suc m * p) ≡ tally f c (p + m * p) = ap (tally f c) (omega arith) in
    omega (
      arith,
      more,
      tally-add f c p (m * p),
      tally-period f p per c,
      tally-periods f p per (c + p) m,
    )

abbrev pub hit : ℕ → Option ℕ → ℕ
hit x none = 0
hit x (some y) = if nat_beq y x then 1 else 0

tally-suc : (f : ℕ → ℕ) (c k : ℕ) → tally f (suc c) k ≡ tally (λ i. f (suc i)) c k
unfolding tally
tally-suc f c zero = refl
tally-suc f c (suc k) = omega (arith, tally-suc f (suc c) k)

-- Reading a list from end to end meets a number as often as the list holds it.
pub tally-get_elem? :
    (x : ℕ) (ys : List ℕ) → tally (λ i. hit x (get_elem? ys i)) 0 (length ys) ≡ count x ys
unfolding tally
tally-get_elem? x [] = refl
tally-get_elem? x (y ∷ ys) =
    omega (arith, tally-suc (λ i. hit x (get_elem? (y ∷ ys) i)) 0 (length ys), tally-get_elem? x ys)

-- How many of the answers are the index `x`.
abbrev pub hits : ℕ → List (Option ℕ) → ℕ
hits x [] = 0
hits x (o ∷ os) = hit x o + hits x os

-- The answers of `k` calls in a row.
pub served {ℓ} : {S : Type ℓ} → (S → Option ℕ × S) → ℕ → S → List (Option ℕ)
served next zero s = []
served next (suc k) s = (next s).0 ∷ served next k (next s).1

tally-wrap :
    (f : ℕ → ℕ) (c k : ℕ) → c + suc k ≤ u64_mod → tally f (wrap_add c 1) k ≡ tally f (suc c) k
unfolding tally
tally-wrap f c zero h = refl
tally-wrap f c (suc k) h = ap (λ d. tally f d (suc k)) (omega arith)

-- A balancer that answers by its atomic counter alone, before the counter wraps. `P` is what
-- stays fixed in its state.
module _ {ℓ} {S : Type ℓ} (P : S → Type 0) (next : S → Option ℕ × S) (counter : S → ℕ)
    (pick : ℕ → Option ℕ) (keeps : (s : S) → P s → P (next s).1)
    (answers : (s : S) → P s → (next s).0 ≡ pick (counter s))
    (counts : (s : S) → counter (next s).1 ≡ wrap_add (counter s) 1) where
  pub hits-served :
      (x k : ℕ) (s : S)
      → P s
      → counter s + k ≤ u64_mod
      → hits x (served next k s) ≡ tally (λ i. hit x (pick i)) (counter s) k
  unfolding served tally
  hits-served x zero s p h = refl
  hits-served x (suc k) s p h = rw (answers s p) (
      omega (
        arith,
        hits-served x k (next s).1 (keeps s p) (omega (arith, counts s)),
        ap (λ c. tally (λ i. hit x (pick i)) c k) (counts s),
        tally-wrap (λ i. hit x (pick i)) (counter s) k h,
      ))
