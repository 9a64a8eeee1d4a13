-- ===== src/RetryBudget/Window.antt =====
-- The pruned lists answer as two logs do that nothing is ever taken from.
use l7_proxy.Base.{
  ℕ, ◌≤◌, ◌<◌, ◌≡◌, refl, sym, ap, ◌∙◌, ◌⊎◌, ◌↔◌, ◌++◌, inl, inr, List, [], ◌∷◌, Bool, true, false,
  ltb, nat_beq, if◌then◌else◌, length, retain, retain-append, Bool-cases, arith, from_secs,
}
use l7_proxy.Base.Float.{Float}
use l7_proxy.RetryBudget.{RetryBudget, recent, new, record_request, max_retries, allow_retry}

-- A stricter test after a weaker one is the stricter one.
retain-retain :
    (p q : ℕ → Bool) (xs : List ℕ)
    → ((t : ℕ) → p t ≡ true → q t ≡ true)
    → retain p (retain q xs) ≡ retain p xs
retain-retain p q [] h = refl
retain-retain p q (x ∷ xs) h = ground (arith, h x, retain-retain p q xs h)

recent_mono :
    (window now later t : ℕ)
    → now ≤ later
    → recent window later t ≡ true
    → recent window now t ≡ true
recent_mono window now later t l h = ground arith

pub data Call : Type 0 where
  request : ℕ → Call
  retry : ℕ → ℕ → Call

-- The calls read a clock that does not go back.
abbrev pub InOrder : ℕ → List Call → Type 0
InOrder last [] = Unit
InOrder last (request now ∷ cs) = (last ≤ now) × InOrder now cs
InOrder last (retry now later ∷ cs) = (last ≤ now) × (now ≤ later) × InOrder later cs

-- How many entries of a log lie in the window.
abbrev pub within : ℕ → ℕ → List ℕ → ℕ
within window now log = length (retain (recent window now) log)

-- The lists agree on what later windows can see.
abbrev Agrees : ℕ → ℕ → List ℕ → List ℕ → Type 0
Agrees window last xs log =
    (now : ℕ) → last ≤ now → retain (recent window now) xs ≡ retain (recent window now) log

Agrees-push :
    (window last now t : ℕ) (xs log : List ℕ)
    → last ≤ now
    → Agrees window last xs log
    → Agrees window now (xs ++ t ∷ []) (log ++ t ∷ [])
Agrees-push window last now t xs log l a n h =
    retain-append (recent window n) xs (t ∷ [])
    ∙ ap (λ ys. ys ++ retain (recent window n) (t ∷ [])) (a n (omega arith))
    ∙ sym (retain-append (recent window n) log (t ∷ []))

Agrees-prune :
    (window last now : ℕ) (xs log : List ℕ)
    → last ≤ now
    → Agrees window last xs log
    → Agrees window now (retain (recent window now) xs) log
Agrees-prune window last now xs log l a n h =
    retain-retain (recent window n) (recent window now) xs (λ t. recent_mono window now n t h)
    ∙ a n (omega arith)

Agrees-if :
    (window now later : ℕ) (xs log : List ℕ) (b : Bool)
    → now ≤ later
    → Agrees window now xs log
    → Agrees window later
        (if b then xs ++ later ∷ [] else xs)
        (if b then log ++ later ∷ [] else log)
Agrees-if window now later xs log true l a = Agrees-push window now later later xs log l a
Agrees-if window now later xs log false l a = λ n h. a n (omega arith)

module _ {F : Type 0} ⦃f : Float F⦄ where
  -- The answers of the implementation.
  unfoldable pub run : RetryBudget F → List Call → List Bool
  run b [] = []
  run b (request now ∷ cs) = run (record_request b now) cs
  run b (retry now later ∷ cs) = (allow_retry b now later).0 ∷ run (allow_retry b now later).1 cs

  -- The specification: full logs, and the decision by counting what lies in the window.
  abbrev pub grants : F → ℕ → ℕ → Bool
  grants percent requests retries =
      if nat_beq requests 0 then true else ltb retries (max_retries percent requests)

  -- A retry that the window without requests lets through is not logged.
  abbrev pub logged : F → ℕ → ℕ → Bool
  logged percent requests retries =
      if nat_beq requests 0 then false else ltb retries (max_retries percent requests)

  unfoldable pub spec : F → ℕ → List ℕ → List ℕ → List Call → List Bool
  spec percent window requests retries [] = []
  spec percent window requests retries (request now ∷ cs) =
      spec percent window (requests ++ now ∷ []) retries cs
  spec percent window requests retries (retry now later ∷ cs) =
      grants percent (within window now requests) (within window now retries)
      ∷ spec percent window requests
          (if logged percent (within window now requests) (within window now retries)
            then retries ++ later ∷ []
            else retries)
          cs

  -- One question, in terms of the logs.
  allow_retry_lem :
      (b : RetryBudget F) (now later : ℕ) (requests retries : List ℕ)
      → retain (recent b.window now) b.requests ≡ retain (recent b.window now) requests
      → retain (recent b.window now) b.retries ≡ retain (recent b.window now) retries
      → let r = within b.window now requests in
        let t = within b.window now retries in
        allow_retry b now later ≡ (
          grants b.budget_percent r t,
          record b {
            requests = retain (recent b.window now) b.requests;
            retries =
                if logged b.budget_percent r t
                then retain (recent b.window now) b.retries ++ later ∷ []
                else retain (recent b.window now) b.retries;
          },
        )
  unfolding allow_retry
  allow_retry_lem b now later requests retries p q =
      elim (Bool-cases (nat_beq (within b.window now requests) 0)) [
        | inl idle ↦ rw (p, q, idle)
        | inr busy ↦
            elim (Bool-cases (
              ltb (within b.window now retries)
                (max_retries b.budget_percent (within b.window now requests)))) [
                  | inl less ↦ rw (p, q, busy, less)
                  | inr more ↦ rw (p, q, busy, more)
                ]
      ]

  -- Pruning is invisible: under a clock that does not go back, every answer is the one that counting
  -- in the full logs gives.
  pub run-eq-spec :
      (b : RetryBudget F) (last : ℕ) (requests retries : List ℕ) (cs : List Call)
      → Agrees b.window last b.requests requests
      → Agrees b.window last b.retries retries
      → InOrder last cs
      → run b cs ≡ spec b.budget_percent b.window requests retries cs
  unfolding run spec record_request
  run-eq-spec b last requests retries [] p q o = refl
  run-eq-spec b last requests retries (request now ∷ cs) p q (l, o) =
      run-eq-spec (record_request b now) now (requests ++ now ∷ []) retries cs
        (Agrees-push b.window last now now b.requests requests l p) (λ n h. q n (omega arith)) o
  run-eq-spec b last requests retries (retry now later ∷ cs) p q (l, m, o) =
      let r = within b.window now requests in
      let t = within b.window now retries in
      let kept = retain (recent b.window now) b.retries in
      rw (allow_retry_lem b now later requests retries (p now l) (q now l)) (
        ap (◌∷◌ (grants b.budget_percent r t)) (
          run-eq-spec
            (record b {
              requests = retain (recent b.window now) b.requests;
              retries = if logged b.budget_percent r t then kept ++ later ∷ [] else kept;
            })
            later requests (if logged b.budget_percent r t then retries ++ later ∷ [] else retries)
            cs (λ n h. Agrees-prune b.window last now b.requests requests l p n (omega arith))
            (Agrees-if b.window now later kept retries (logged b.budget_percent r t) m
              (Agrees-prune b.window last now b.retries retries l q))
            o))

  -- A new budget that is asked by calls whose clock does not go back answers as the specification,
  -- which counts in logs that are never pruned.
  pub run-new :
      (percent : F) (window_secs : ℕ) (cs : List Call)
      → InOrder 0 cs
      → run (new percent window_secs) cs ≡ spec percent (from_secs window_secs) [] [] cs
  unfolding new
  run-new percent window_secs cs o =
      run-eq-spec (new percent window_secs) 0 [] [] cs (λ n h. refl) (λ n h. refl) o

  -- A retry is granted exactly when the window holds no request, or fewer retries than the budget
  -- allows for the requests in it; a grant of the second kind is recorded, and no other call is.
  pub allow_retry_iff :
      (b : RetryBudget F) (now later : ℕ)
      → let requests = within b.window now b.requests in
        let retries = within b.window now b.retries in
        ((allow_retry b now later).0 ≡ true)
        ↔ ((requests ≡ 0) ⊎ (retries < max_retries b.budget_percent requests))
  unfolding allow_retry
  allow_retry_iff b now later = ground arith

  -- With no request in the window every further question is granted, and none of them is recorded.
  pub unmetered :
      (b : RetryBudget F) (now later : ℕ)
      → within b.window now b.requests ≡ 0
      → ((allow_retry b now later).0 ≡ true)
        × ((allow_retry b now later).1.requests ≡ retain (recent b.window now) b.requests)
        × ((allow_retry b now later).1.retries ≡ retain (recent b.window now) b.retries)
  unfolding allow_retry
  unmetered b now later h = ground arith
