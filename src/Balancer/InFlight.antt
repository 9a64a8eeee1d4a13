-- ===== src/Balancer/InFlight.antt =====
-- A least-connections balancer under any number of requests at once: `record_start` and `record_done`
-- stand around the call of `forward_once` in src/proxy.rs, and a request's future may be dropped in
-- between, as the timeout layer of src/middleware.rs does.
use l7_proxy.Base.{
  ℕ, zero, suc, ◌+◌, ◌-◌, ◌%◌, ◌≤◌, ◌<◌, ◌≡◌, refl, ap, ◌∙◌, inl, inr, List, [], ◌∷◌, ◌++◌, some,
  arith, ltb, ltb→lt, nat_beq, if◌then◌else◌, Bool-cases, length, replicate, get_or, get_or-set,
  count, count-append, u64_mod, wrap_add,
}
use l7_proxy.Balancer.Least.{
  LeastConnections, new, next_index, record_start, record_done, next_index-FirstMin, length-new,
  length-record_start, length-record_done,
}

-- The balancer, the calls that are under way, and those whose future was dropped.
pub record Pool : Type 0 where
  pub balancer : LeastConnections
  pub running : List ℕ
  pub dropped : List ℕ

-- What one of the requests may do next.
pub data Step (s : Pool) : Pool → Type 0 where
  starts :
      (i : ℕ) → Step s (record s { balancer = record_start s.balancer i; running = i ∷ s.running })
  returns :
      (i : ℕ) (before after : List ℕ)
      → s.running ≡ before ++ i ∷ after
      → Step s (record s { balancer = record_done s.balancer i; running = before ++ after })
  drops :
      (i : ℕ) (before after : List ℕ)
      → s.running ≡ before ++ i ∷ after
      → Step s (record s { running = before ++ after; dropped = i ∷ s.dropped })

-- What a new balancer for `n` upstreams may come to.
pub data Reach (n : ℕ) : Pool → Type 0 where
  built : Reach n (record { balancer = new n; running = []; dropped = [] })
  then_step : {s t : Pool} → Reach n s → Step s t → Reach n t

-- The calls on an upstream that the balancer still counts.
abbrev pub held : Pool → ℕ → ℕ
held s j = count j s.running + count j s.dropped

pub record IsTracked (n : ℕ) (s : Pool) : Type 0 where
  pub size : length s.balancer.active ≡ n
  pub counted : (j : ℕ) → j < n → get_or s.balancer.active j 0 ≡ held s j % u64_mod

pub record_start-active :
    (b : LeastConnections) (i j : ℕ)
    → j < length b.active
    → get_or (record_start b i).active j 0
      ≡ (if nat_beq i j then wrap_add (get_or b.active j 0) 1 else get_or b.active j 0)
unfolding record_start
record_start-active b i j h = elim (Bool-cases (ltb i (length b.active))) [
  | inl inside ↦ rw inside (get_or-set b.active i j _ 0 (ltb→lt _ _ inside) ∙ ground arith)
  | inr outside ↦ rw outside (ground arith)
]

pub record_done-active :
    (b : LeastConnections) (i j : ℕ)
    → j < length b.active
    → get_or (record_done b i).active j 0
      ≡ (if nat_beq i j then (get_or b.active j 0 + u64_mod - 1) % u64_mod else get_or b.active j 0)
unfolding record_done
record_done-active b i j h = elim (Bool-cases (ltb i (length b.active))) [
  | inl inside ↦ rw inside (get_or-set b.active i j _ 0 (ltb→lt _ _ inside) ∙ ground arith)
  | inr outside ↦ rw outside (ground arith)
]

count-middle :
    (j i : ℕ) (before after : List ℕ)
    → count j (before ++ i ∷ after) ≡ (if nat_beq i j then 1 else 0) + count j (before ++ after)
count-middle j i before after =
    omega (arith, count-append j before (i ∷ after), count-append j before after)

Step-IsTracked : {n : ℕ} {s t : Pool} → Step s t → IsTracked n s → IsTracked n t
Step-IsTracked {n} {s} (starts i) v = record {
  size = length-record_start s.balancer i ∙ v.size;
  counted = λ j h. ground (arith, v.size, v.counted j h, record_start-active s.balancer i j);
}
Step-IsTracked {n} {s} (returns i before after e) v = record {
  size = length-record_done s.balancer i ∙ v.size;
  counted = λ j h. ground (
    arith,
    v.size,
    v.counted j h,
    record_done-active s.balancer i j,
    ap (count j) e,
    count-middle j i before after,
  );
}
Step-IsTracked {n} {s} (drops i before after e) v = record {
  size = v.size;
  counted = λ j h. ground (arith, v.counted j h, ap (count j) e, count-middle j i before after);
}

get_or-zeros : (n j : ℕ) → get_or {A = ℕ} (replicate n 0) j 0 ≡ 0
get_or-zeros zero j = refl
get_or-zeros (suc n) zero = refl
get_or-zeros (suc n) (suc j) = get_or-zeros n j

-- Whatever the requests do, in whatever order, each counter is the number of calls on its upstream
-- that are under way and of those that were dropped, modulo 2 ^ 64.
pub Reach-IsTracked : {n : ℕ} {s : Pool} → Reach n s → IsTracked n s
unfolding new
Reach-IsTracked {n} built = record { size = length-new n; counted = λ j h. get_or-zeros n j }
Reach-IsTracked (then_step r st) = Step-IsTracked st (Reach-IsTracked r)

-- In a reachable state with fewer than 2 ^ 64 calls on each upstream, the next choice among a pool
-- of `n`, not empty, is the first upstream with the fewest calls under way or dropped.
pub next_index-fewest :
    {n : ℕ} {s : Pool}
    → Reach n s
    → 0 < n
    → ((j : ℕ) → j < n → held s j < u64_mod)
    → (i : ℕ) × ((next_index s.balancer n).0 ≡ some i)
      × (i < n)
      × ((j : ℕ) → j < n → held s i ≤ held s j)
      × ((j : ℕ) → j < i → held s i < held s j)
next_index-fewest {n} {s} r pos small =
    let v = Reach-IsTracked r in
    let (i, e, f, _) = next_index-FirstMin s.balancer n pos (rw v.size pos) in
    let inside : i < n = omega (arith, f.within, v.size) in
    (
      i,
      e,
      inside,
      λ j h. omega (
        arith,
        f.least j (omega (arith, v.size)),
        v.counted j h,
        v.counted i inside,
        small j h,
        small i inside,
      ),
      λ j h. omega (
        arith,
        f.first j h,
        v.counted j (omega arith),
        v.counted i inside,
        small j (omega arith),
        small i inside,
      ),
    )
