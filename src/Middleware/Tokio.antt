-- ===== src/Middleware/Tokio.antt =====
-- What src/middleware.rs uses of tokio: which pause a future is in at an instant, at which a timeout
-- runs out or the future is dropped.
pub mod Sample
use l7_proxy.Base.{ℕ, ◌≤◌, ◌<◌, ◌≡◌, ◌⊎◌, List, ◌∷◌, ◌++◌, Option, none, some, All}

-- Every pause ends by the deadline.
abbrev pub InTime : {S : Type 0} → ℕ → List (ℕ × S) → Type 0
InTime deadline pauses = All (λ p. p.0 ≤ deadline) pauses

-- The deadline comes in a pause that left this state, and all those before it end by the deadline.
pub record Late {S : Type 0} (deadline : ℕ) (pauses : List (ℕ × S)) (s : S) : Type 0 where
  pub until : ℕ
  pub earlier : List (ℕ × S)
  pub later : List (ℕ × S)
  pub splits : pauses ≡ later ++ (until, s) ∷ earlier
  pub passes : deadline < until
  pub before : InTime deadline earlier

-- As documented: a future that is done when its timeout runs out is not dropped, also if it is done at
-- that very instant, since it is polled first; and one that is not is dropped where it is. `none` is
-- said of a future that is done; otherwise the pause that it is in, and those before it.
pub record Runtime : Type 1 where
  pub dropped_in : {S : Type 0} → ℕ → List (ℕ × S) → Option ((ℕ × S) × List (ℕ × S))
  pub found :
      {S : Type 0} (instant : ℕ) (pauses : List (ℕ × S))
      → ((dropped_in instant pauses ≡ none) × InTime instant pauses)
        ⊎ ((s : S) × (late : Late instant pauses s) × (dropped_in instant pauses
              ≡ some ((late.until, s), late.earlier)))
