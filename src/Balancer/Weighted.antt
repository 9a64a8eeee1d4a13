-- ===== src/Balancer/Weighted.antt =====
-- src/balancer.rs, `WeightedRoundRobin`: a counter over a schedule that repeats each index by weight.
use native.Mathlib.Nat.{mod-lt}
use l7_proxy.Base.{
  ℕ, suc, ◌+◌, ◌*◌, ◌%◌, ◌≤◌, ◌<◌, ◌≡◌, refl, sym, ap, ◌∙◌, zero, List, [], ◌∷◌, ◌++◌, Option, none,
  some, arith, nat_beq, if◌then◌else◌, wrap_add, u64_mod, length, get_elem?, get_elem?_of_lt,
  replicate, count, count-append, length-append, length-replicate,
}
use l7_proxy.Balancer.Cycle.{
  tally, tally_congr, tally-get_elem?, tally-periods, hit, hits, served, hits-served, checked_rem,
  checked_rem_periodic, checked_rem_of_lt, checked_rem_of_pos,
}

pub record WeightedRoundRobin : Type 0 where
  pub counter : ℕ
  pub schedule : List ℕ

-- The two nested `for` loops of `new`, from upstream `i` on.
unfoldable pub expand : ℕ → List ℕ → List ℕ
expand i [] = []
expand i (w ∷ ws) = replicate w i ++ expand (suc i) ws

unfoldable pub new : List ℕ → WeightedRoundRobin
unfolding expand
new weights = record { counter = 0; schedule = expand 0 weights }

-- `schedule[i]` at a computed place, which panics outside the schedule.
unfoldable pub at_place : List ℕ → Option ℕ → Option ℕ
at_place xs none = none
at_place xs (some i) = get_elem? xs i

unfoldable pub next_index : WeightedRoundRobin → ℕ → Option ℕ × WeightedRoundRobin
unfolding at_place
next_index b _ = (
  at_place b.schedule (checked_rem b.counter (length b.schedule)),
  record b { counter = wrap_add b.counter 1 },
)

-- The sum of the weights: the length of one cycle.
unfoldable pub total_weight : List ℕ → ℕ
total_weight [] = 0
total_weight (w ∷ ws) = w + total_weight ws

length-expand : (i : ℕ) (ws : List ℕ) → length (expand i ws) ≡ total_weight ws
unfolding expand total_weight
length-expand i [] = refl
length-expand i (w ∷ ws) = omega (
  arith,
  length-append (replicate w i) (expand (suc i) ws),
  length-replicate w i,
  length-expand (suc i) ws,
)

count-replicate : (x w i : ℕ) → count x (replicate w i) ≡ (if nat_beq i x then w else 0)
count-replicate x zero i = ground arith
count-replicate x (suc w) i = ground (arith, count-replicate x w i)

count-expand_below : (x i : ℕ) (ws : List ℕ) → x < i → count x (expand i ws) ≡ 0
unfolding expand
count-expand_below x i [] h = refl
count-expand_below x i (w ∷ ws) h = ground (
  arith,
  count-append x (replicate w i) (expand (suc i) ws),
  count-replicate x w i,
  count-expand_below x (suc i) ws,
)

-- The schedule holds each index as often as its weight says.
count-expand :
    (x i : ℕ) (ws : List ℕ) (w : ℕ) → get_elem? ws x ≡ some w → count (i + x) (expand i ws) ≡ w
unfolding expand
count-expand x i [] w e = cc
count-expand zero i (v ∷ ws) w e = ground (
  arith,
  count-append (i + zero) (replicate v i) (expand (suc i) ws),
  count-replicate (i + zero) v i,
  count-expand_below (i + zero) (suc i) ws,
)
count-expand (suc x) i (v ∷ ws) w e =
    let here : suc i + x ≡ i + suc x = omega arith in
    ground (
      arith,
      count-append (i + suc x) (replicate v i) (expand (suc i) ws),
      count-replicate (i + suc x) v i,
      ap (λ k. count k (expand (suc i) ws)) here,
      count-expand x (suc i) ws w e,
    )

-- In any `m` cycles of calls made before the counter wraps, a cycle being as many calls as the
-- weights add up to, each upstream is chosen exactly `m` times its weight.
pub next_index_weighted :
    (ws : List ℕ) (c n m x w : ℕ)
    → get_elem? ws x ≡ some w
    → c + m * total_weight ws ≤ u64_mod
    → hits x (served (λ s. next_index s n) (m * total_weight ws) (record (new ws) { counter = c }))
      ≡ m * w
unfolding next_index new at_place
next_index_weighted ws c n m x w e room =
    hits-served (λ s. s.schedule ≡ expand 0 ws) (λ s. next_index s n) (λ s. s.counter) pick
      (λ s p. p) (λ s p. ap (λ ys. at_place ys (checked_rem s.counter (length ys))) p) (λ s. refl) x
      (m * total_weight ws) (record { counter = c; schedule = expand 0 ws }) refl room
    ∙ ap (tally (λ i. hit x (pick i)) c) (ap (λ p. m * p) (sym size))
    ∙ tally-periods (λ i. hit x (pick i)) (length (expand 0 ws))
        (λ i. ap (λ o. hit x (at_place (expand 0 ws) o)) (checked_rem_periodic i _)) c m
    ∙ ap (λ p. m * p) one
  where
    size : length (expand 0 ws) ≡ total_weight ws
    size = length-expand 0 ws

    pick : ℕ → Option ℕ
    pick i = at_place (expand 0 ws) (checked_rem i (length (expand 0 ws)))

    one : tally (λ i. hit x (pick i)) 0 (length (expand 0 ws)) ≡ w
    one =
        tally_congr _ (λ i. hit x (get_elem? (expand 0 ws) i)) 0 (length (expand 0 ws))
          (λ i l. ap (λ o. hit x (at_place (expand 0 ws) o)) (checked_rem_of_lt i _ (omega arith)))
        ∙ tally-get_elem? x (expand 0 ws)
        ∙ ap (λ k. count k (expand 0 ws)) (omega arith)
        ∙ count-expand x 0 ws w e

pub length-schedule : (ws : List ℕ) → length (new ws).schedule ≡ total_weight ws
unfolding new
length-schedule ws = length-expand 0 ws

pub total_weight-ones : (n : ℕ) → total_weight (replicate n 1) ≡ n
unfolding total_weight
total_weight-ones zero = refl
total_weight-ones (suc n) = omega (arith, total_weight-ones n)

-- A schedule with an entry always answers.
pub next_index_total :
    (b : WeightedRoundRobin) (n : ℕ)
    → 0 < length b.schedule
    → (i : ℕ) × ((next_index b n).0 ≡ some i)
unfolding next_index at_place
next_index_total b n h =
    let place : b.counter % length b.schedule < length b.schedule = mod-lt _ h in
    let (i, e) = get_elem?_of_lt b.schedule _ place in
    (i, ap (at_place b.schedule) (checked_rem_of_pos b.counter _ h) ∙ e)

pub next_index-schedule :
    (b : WeightedRoundRobin) (n : ℕ) → (next_index b n).1.schedule ≡ b.schedule
unfolding next_index
next_index-schedule b n = refl
