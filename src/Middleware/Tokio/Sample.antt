-- ===== src/Middleware/Tokio/Sample.antt =====
-- An implementation of the interface of src/middleware.rs to tokio, for runs of the model.
use l7_proxy.Base.{
  ℕ, ◌≡◌, refl, ap, ◌⊎◌, inl, inr, List, [], ◌∷◌, Option, none, some, arith, ltb, if◌then◌else◌,
  Bool-cases,
}
use l7_proxy.Middleware.Tokio.{InTime, Late, Runtime}

-- The pause in which a deadline comes, with those before it, among pauses of which the latest
-- is the first.
unfoldable pub overdue : {S : Type 0} → ℕ → List (ℕ × S) → Option ((ℕ × S) × List (ℕ × S))
overdue deadline [] = none
overdue deadline ((until, s) ∷ earlier) = elim (overdue deadline earlier) [
  | some found ↦ some found
  | none ↦ if ltb deadline until then some ((until, s), earlier) else none
]

-- The pauses that `overdue` finds are those of the description.
pub overdue-cases :
    {S : Type 0} (deadline : ℕ) (pauses : List (ℕ × S))
    → ((overdue deadline pauses ≡ none) × InTime deadline pauses)
      ⊎ ((s : S) × (late : Late deadline pauses s) × (overdue deadline pauses
            ≡ some ((late.until, s), late.earlier)))
unfolding overdue
overdue-cases deadline [] = inl (refl, tt)
overdue-cases deadline ((until, s) ∷ earlier) = elim (overdue-cases deadline earlier) [
  | inl (e, before) ↦ elim (Bool-cases (ltb deadline until)) [
    | inl passes ↦ inr (
      s,
      record {
        until = until;
        earlier = earlier;
        later = [];
        splits = refl;
        passes = ground arith;
        before = before;
      },
      rw (e, passes) refl,
    )
    | inr in_time ↦ inl (rw (e, in_time) refl, (ground arith, before))
  ]
  | inr (t, late, e) ↦ inr (
    t,
    record {
      until = late.until;
      earlier = late.earlier;
      later = (until, s) ∷ late.later;
      splits = ap (◌∷◌ (until, s)) late.splits;
      passes = late.passes;
      before = late.before;
    },
    rw e refl,
  )
]

instance abbrev pub tokio : Runtime
tokio = record { dropped_in = overdue; found = overdue-cases }
