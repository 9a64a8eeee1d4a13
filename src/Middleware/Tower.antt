-- ===== src/Middleware/Tower.antt =====
-- The services and futures of src/middleware.rs, on the state `S` that the requests share.
use l7_proxy.Base.{ℕ, List, [], ◌∷◌, map}
use l7_proxy.Http.{Http, Request, Response}
use l7_proxy.Errors.{Outcome}
use l7_proxy.RateLimiter.{IpAddr}

-- What `poll_ready` returns.
pub data Poll : Type 0 where
  ready pending : Poll

module _ (H : Http) where
  -- A future as it is when it is done: its result, the state, and its pauses, the latest first, each
  -- with the instant at which it ends and the state in which it leaves the others to run.
  pub record Future (S : Type 0) : Type 0 where
    pub result : Outcome (Response H)
    pub state : S
    pub suspended : List (ℕ × S)

  -- `async fn`s, such as `proxy_request`
  abbrev pub Handler : Type 0 → Type 0
  Handler S = Request H IpAddr → S → Future S

  -- `tower::Service`
  pub record Service (S : Type 0) : Type 0 where
    pub poll_ready : S → Poll
    pub call : Handler S

module _ {H : Http} {S : Type 0} where
  -- A future that is done without a pause.
  abbrev pub at_once : Outcome (Response H) → S → Future H S
  at_once result s = record { result = result; state = s; suspended = [] }

  -- A future on a larger state, of which it leaves the other part as it is.
  abbrev pub beside : {L : Type 0} → L → Future H S → Future H (L × S)
  beside l future = record {
    result = future.result;
    state = (l, future.state);
    suspended = map (λ p. (p.0, (l, p.1))) future.suspended;
  }

-- The instant at which a future is done that is first polled at `begun` and has these pauses.
unfoldable pub over : {S : Type 0} → ℕ → List (ℕ × S) → ℕ
over begun [] = begun
over begun ((until, s) ∷ earlier) = until
