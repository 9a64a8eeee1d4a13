-- ===== src/Proxy/Loop/Order.antt =====
-- Which upstreams the loop of `proxy_request` calls, when, and what it tells the client.
use native.Mathlib.Nat.{mod-lt, mod-eq_of_lt, mod-eq-sub-mod, mod-add-mod}
use l7_proxy.Base.{
  ℕ, zero, suc, ◌+◌, ◌-◌, ◌%◌, ◌≤◌, ◌<◌, ◌≡◌, refl, ◌∙◌, ◌⊎◌, inl, inr, List, [], ◌∷◌, Option,
  arith, In, ltb, ltb→lt, Bool-cases, u64_mod, wrap_add,
}
use l7_proxy.Base.Float.{Float}
use l7_proxy.Http.{Http, Response}
use l7_proxy.Errors.{ProxyError, Outcome}
use l7_proxy.Proxy.World.{Env, Run, Action, started}
use l7_proxy.Proxy.Attempt.{Plan}
use l7_proxy.Proxy.Request.{run_loop}
use l7_proxy.Proxy.Rounds.{
  pool, index_at, before_attempt, Rounds, begin, skip, fails, Ends, gives_up, serves, panics,
}
use l7_proxy.Proxy.Loop.{run_loop-Ends}

-- The upstreams that were called, the latest first.
abbrev pub starts : List Action → List ℕ
starts [] = []
starts (started i ∷ log) = i ∷ starts log
starts (_ ∷ log) = starts log

abbrev pub Distinct : List ℕ → Type 0
Distinct [] = Unit
Distinct (i ∷ is) = ¬ In i is × Distinct is

-- Below twice the modulus, a remainder wraps at most once.
mod_wraps : (x n : ℕ) → x < n + n → ((x < n) × (x % n ≡ x)) ⊎ ((x % n) + n ≡ x)
mod_wraps x n h = elim (Bool-cases (ltb x n)) [
  | inl below ↦ let lt = ltb→lt x n below in inl (lt, mod-eq_of_lt lt)
  | inr above ↦
      let le : n ≤ x = ground arith in
      let e : x % n ≡ x - n = mod-eq-sub-mod le ∙ mod-eq_of_lt (omega arith) in inr (omega arith)
]

-- Less than the modulus apart is apart.
mod_apart : (s i j n : ℕ) → i < j → j < n → ¬ ((s + i) % n ≡ (s + j) % n)
mod_apart s i j n lt le e =
    let below : s % n < n = mod-lt s (omega arith) in
    let ei : (s % n + i) % n ≡ (s + i) % n = mod-add-mod s n i in
    let ej : (s % n + j) % n ≡ (s + j) % n = mod-add-mod s n j in
    elim (mod_wraps (s % n + i) n (omega arith)) [
      | inl a ↦ elim (mod_wraps (s % n + j) n (omega arith)) [
        | inl b ↦ omega arith
        | inr b ↦ omega arith
      ]
      | inr a ↦ elim (mod_wraps (s % n + j) n (omega arith)) [
        | inl b ↦ omega arith
        | inr b ↦ omega arith
      ]
    ]

module _ {H : Http} {F : Type 0} (env : Env H F) (plan : Plan H) where
  index_at_apart :
      (i j : ℕ)
      → plan.start_index + pool env plan ≤ u64_mod
      → i < j
      → j < pool env plan
      → ¬ (index_at env plan i ≡ index_at env plan j)
  index_at_apart i j small lt le e =
      let ei : wrap_add plan.start_index i ≡ plan.start_index + i = mod-eq_of_lt (omega arith) in
      let ej : wrap_add plan.start_index j ≡ plan.start_index + j = mod-eq_of_lt (omega arith) in
      mod_apart plan.start_index i j (pool env plan) lt le (rw (ei, ej) at e)

  starts-before_attempt :
      (a : ℕ) (log : List Action) → starts (before_attempt env plan a log) ≡ starts log
  starts-before_attempt zero log = refl
  starts-before_attempt (suc a) log = refl

  -- The rounds called no upstream twice, and none but those of their own places.
  abbrev Visited : ℕ → List Action → Type 0
  Visited o log =
      Distinct (starts log)
      × ((j : ℕ) → In j (starts log) → (i : ℕ) × (i < o) × (index_at env plan i ≡ j))

  Visited-called :
      (o a : ℕ) (log : List Action)
      → plan.start_index + pool env plan ≤ u64_mod
      → o < pool env plan
      → Visited o log
      → Visited (suc o) (started (index_at env plan o) ∷ before_attempt env plan a log)
  Visited-called o a log small lt (d, v) = rw (starts-before_attempt a log) (
    (λ again. let (i, le, e) = v _ again in index_at_apart i o small le lt e, d),
    λ j here. elim here [
      | inl e ↦ (o, omega arith, e)
      | inr h ↦ let (i, le, e) = v j h in (i, omega arith, e)
    ],
  )

  Rounds-Visited :
      {o a : ℕ} {l : Option ProxyError} {log : List Action}
      → plan.start_index + pool env plan ≤ u64_mod
      → o ≤ pool env plan
      → Rounds env plan o a l log
      → Visited o log
  Rounds-Visited small le begin = (tt, λ j h. absurd h)
  Rounds-Visited small le (skip r) =
      let (d, v) = Rounds-Visited small (omega arith) r in
      (d, λ j h. let (i, lt, e) = v j h in (i, omega arith, e))
  Rounds-Visited small le (fails {o = o} {a = a} {log = log} r more s f) =
      Visited-called o a log small (omega arith) (Rounds-Visited small (omega arith) r)

  Ends-Distinct :
      {log : List Action} {result : Outcome (Response H)}
      → plan.start_index + pool env plan ≤ u64_mod
      → Ends env plan log result
      → Distinct (starts log)
  Ends-Distinct small (gives_up took r le) = (Rounds-Visited small le r).0
  Ends-Distinct small (serves {o = o} {a = a} {log = log} took r lt more s e fine) =
      (Visited-called o a log small lt (Rounds-Visited small (omega arith) r)).0
  Ends-Distinct small (panics {o = o} {a = a} {log = log} r lt more s e) =
      (Visited-called o a log small lt (Rounds-Visited small (omega arith) r)).0

  -- From an empty log, no request calls an upstream twice, when the index it starts from and the size
  -- of the pool add up to at most 2 ^ 64.
  pub run_loop-Distinct :
      ⦃f : Float F⦄ (r : Run F)
      → r.log ≡ []
      → plan.start_index + pool env plan ≤ u64_mod
      → Distinct (starts (run_loop env plan r).0.log)
  run_loop-Distinct r e small = Ends-Distinct small (run_loop-Ends env plan r e)
