-- ===== src/Middleware/Deadline.antt =====
-- What `tokio::time::timeout` of src/middleware.rs makes of a future.
use l7_proxy.Base.{
  ℕ, ◌≤◌, ◌≡◌, refl, subst, ◌⊎◌, inl, inr, List, [], ◌∷◌, ◌++◌, arith, map, All, All-middle,
  All-after,
}
use l7_proxy.Http.{Http}
use l7_proxy.Errors.{ok}
use l7_proxy.Middleware.Tower.{Future, over}
use l7_proxy.Middleware.Tokio.{InTime, Late, Runtime}
use l7_proxy.Middleware.{request_timed_out, timed}

module _ {S : Type 0} (deadline : ℕ) where
  over-InTime :
      (begun : ℕ) (pauses : List (ℕ × S))
      → begun ≤ deadline
      → InTime deadline pauses
      → over begun pauses ≤ deadline
  unfolding over
  over-InTime begun [] le h = le
  over-InTime begun (p ∷ pauses) le (first, h) = first

module _ {H : Http} {S : Type 0} ⦃runtime : Runtime⦄ (deadline : ℕ) (others : S → S)
    (future : Future H S) where
  -- What becomes of a future under a timeout: it is the same when all its pauses end by the deadline,
  -- and otherwise a response with a status of 504, on the state that the pause left in which the
  -- deadline comes, and what the others make of it.
  abbrev pub TimedCases : Future H S → Type 0
  TimedCases timed =
      ((timed ≡ future) × InTime deadline future.suspended)
      ⊎ ((s : S) × Late deadline future.suspended s
          × (timed.result ≡ ok (request_timed_out H))
          × (timed.state ≡ others s))

  pub timed-TimedCases : TimedCases (timed H deadline others future)
  unfolding timed
  timed-TimedCases = elim (runtime.found deadline future.suspended) [
    | inl (e, in_time) ↦ inl (rw (timed, e) refl, in_time)
    | inr (s, late, e) ↦ inr (s, late, rw (timed, e) refl, rw (timed, e) refl)
  ]

  -- By the deadline it is done.
  pub over-timed :
      (begun : ℕ)
      → begun ≤ deadline
      → over begun (timed H deadline others future).suspended ≤ deadline
  unfolding timed over
  over-timed begun le = elim (runtime.found deadline future.suspended) [
    | inl (e, in_time) ↦ rw (timed, e) (over-InTime deadline begun future.suspended le in_time)
    | inr (s, late, e) ↦ rw (timed, e) (omega arith)
  ]

  -- The pauses that are left are those of the future, but for the instant at which the last one ends.
  pub timed-suspended :
      (R : S → Type 0)
      → All (λ p. R p.1) future.suspended
      → All (λ p. R p.1) (timed H deadline others future).suspended
  unfolding timed
  timed-suspended R h = elim (runtime.found deadline future.suspended) [
    | inl (e, in_time) ↦ rw (timed, e) h
    | inr (s, late, e) ↦
        let from : All (λ p. R p.1) (late.later ++ (late.until, s) ∷ late.earlier) =
          subst (All (λ p. R p.1)) late.splits h in
        rw (timed, e)
          (
            All-middle (λ p. R p.1) late.later (late.until, s) late.earlier from,
            All-after (λ p. R p.1) late.later (late.until, s) late.earlier from,
          )
  ]

pub over-beside :
    {L S : Type 0} (l : L) (begun : ℕ) (pauses : List (ℕ × S))
    → over {S = L × S} begun (map (λ p. (p.0, (l, p.1))) pauses) ≡ over begun pauses
unfolding over
over-beside l begun [] = refl
over-beside l begun (p ∷ pauses) = refl
