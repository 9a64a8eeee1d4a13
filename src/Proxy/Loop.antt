-- ===== src/Proxy/Loop.antt =====
-- That the loop of `proxy_request` goes through the rounds of the state machine.
pub mod Counts
pub mod Order
pub mod Backoff
pub mod Told
use Prim.Native.String.{String}
use native.Mathlib.Nat.{mod-lt}
use l7_proxy.Base.{
  ◌+◌, ℕ, zero, suc, ◌≤◌, ◌<◌, ◌≡◌, refl, ap, sym, subst, Bool, inl, inr, List, [], ◌∷◌, true,
  false, Option, wrap_add, arith, leb, ltb, Bool-cases, if-both, get_elem?_of_lt,
}
use l7_proxy.Base.Float.{Float}
use l7_proxy.Http.{Http, Response}
use l7_proxy.Errors.{
  ProxyError, upstream_failure, upstream_timeout, no_route, upstream_failed, invalid_uri,
  no_upstream, Outcome, ok, err, panicked,
}
use l7_proxy.Proxy.World.{
  Env, Run, Action, started, finished, ask_health, ask_budget, note_failure, note_success,
  note_request, pause_if,
}
use l7_proxy.Proxy.Attempt.{
  Plan, is_server_error, Progress, Turn, continues, breaks, returns, dispatched, forward_once,
  begin_call, end_call, failed, succeeded, settle, after_call, attempt, back_off, with_budget,
  visit, turn,
}
use l7_proxy.Proxy.Attempt.Results.{IsAnswer, forward_once-IsAnswer}
use l7_proxy.Proxy.Request.{finish, loop, run_loop}
use l7_proxy.Proxy.Rounds.{
  Fails, server_error, refused, late, pool, index_at, Selected, before_attempt, called, Rounds,
  begin, skip, fails, Ends, gives_up, serves, panics,
}

module _ {H : Http} {F : Type 0} (env : Env H F) (plan : Plan H) where
  -- A state of the loop that the machine reaches.
  abbrev Reached : ℕ → Progress F → Type 0
  Reached o p = Rounds env plan o p.attempts_made p.last_error p.run.log

  -- What a round may come to, after `o` others.
  abbrev Follows : ℕ → Turn H F → Type 0
  Follows o (continues p) = Reached (suc o) p
  Follows o (breaks p) = Reached o p
  Follows o (returns r result) = Ends env plan r.log result

  -- The state of the loop when the client is called.
  abbrev Calling : ℕ → ℕ → Option ProxyError → List Action → Progress F → Type 0
  Calling o a l log p =
      Rounds env plan o a l log
      × (p.attempts_made ≡ suc a)
      × (p.run.log ≡ started (index_at env plan o) ∷ before_attempt env plan a log)
      × (o < pool env plan)
      × (a < plan.max_attempts)

  failed-Follows :
      (p : Progress F) (o a : ℕ) {l : Option ProxyError} {log : List Action} {u kind : String}
      {e : ProxyError}
      → Rounds env plan o a l log
      → p.attempts_made ≡ suc a
      → p.run.log ≡ called env plan o a log
      → a < plan.max_attempts
      → Selected env plan o u
      → Fails (forward_once env plan a u) kind e
      → Follows o (failed env plan p u kind e)
  unfolding failed note_failure
  failed-Follows p o a {l} {log} {u} {kind} {e} r made done more s f =
      rw (made, done) (fails r more s f)

  succeeded-Follows :
      (p : Progress F) (o a : ℕ) {l : Option ProxyError} {log : List Action} {u : String}
      {resp : Response H}
      → Rounds env plan o a l log
      → p.run.log ≡ called env plan o a log
      → o < pool env plan
      → a < plan.max_attempts
      → Selected env plan o u
      → forward_once env plan a u ≡ ok resp
      → is_server_error resp.status ≡ false
      → Follows o (succeeded env plan p u resp)
  unfolding succeeded note_success
  succeeded-Follows p o a r done lt more s e fine = rw done (serves _ r lt more s e fine)

  after_call-Follows :
      (p : Progress F) (o a : ℕ) {l : Option ProxyError} {log : List Action} {u : String}
      (result : Outcome (Response H))
      → Calling o a l log p
      → Selected env plan o u
      → IsAnswer result
      → forward_once env plan a u ≡ result
      → Follows o (after_call env plan p (index_at env plan o) u result)
  unfolding after_call settle end_call
  after_call-Follows p o a {u = u} (ok resp) (r, made, here, lt, more) s h e =
      let q : Progress F = record p {
        run = end_call env plan (index_at env plan o) (pause_if env (dispatched env plan u) p.run);
      } in
      elim (Bool-cases (is_server_error resp.status)) [
        | inl bad ↦ rw bad (
            failed-Follows q o a r made (ap (◌∷◌ (finished (index_at env plan o))) here) more s
              (subst (λ x. Fails x "5xx" upstream_failure) (sym e) (server_error bad)))
        | inr fine ↦ rw fine (
            succeeded-Follows q o a r (ap (◌∷◌ (finished (index_at env plan o))) here) lt more s e
              fine)
      ]
  after_call-Follows p o a (err upstream_failure) (r, made, here, lt, more) s h e =
      failed-Follows _ o a r made (ap (◌∷◌ (finished (index_at env plan o))) here) more s
        (subst (λ x. Fails x "connection" upstream_failure) (sym e) refused)
  after_call-Follows p o a (err upstream_timeout) (r, made, here, lt, more) s h e =
      failed-Follows _ o a r made (ap (◌∷◌ (finished (index_at env plan o))) here) more s
        (subst (λ x. Fails x "timeout" upstream_timeout) (sym e) late)
  after_call-Follows p o a (err no_route) c s h e = elim h [ ]
  after_call-Follows p o a (err upstream_failed) c s h e = elim h [ ]
  after_call-Follows p o a (err invalid_uri) c s h e = elim h [ ]
  after_call-Follows p o a (err no_upstream) c s h e = elim h [ ]
  after_call-Follows p o a panicked (r, made, here, lt, more) s h e = rw here (panics r lt more s e)

  -- The call of the next upstream, once the pause before it is over.
  attempt-Follows :
      (p : Progress F) (o : ℕ) {l : Option ProxyError} {log : List Action} {u : String}
      → Rounds env plan o p.attempts_made l log
      → p.run.log ≡ before_attempt env plan p.attempts_made log
      → o < pool env plan
      → p.attempts_made < plan.max_attempts
      → Selected env plan o u
      → Follows o (attempt env plan p (index_at env plan o) u)
  unfolding attempt begin_call
  attempt-Follows p o {u = u} r here lt more s =
      after_call-Follows
        (record p {
          run = begin_call env plan (index_at env plan o) p.run;
          attempts_made = suc p.attempts_made;
        })
        o p.attempts_made (forward_once env plan p.attempts_made u)
        (r, refl, ap (◌∷◌ (started (index_at env plan o))) here, lt, more) s
        (forward_once-IsAnswer env plan p.attempts_made u) refl

  module _ ⦃f : Float F⦄ where
    before_attempt-first :
        (a : ℕ) (log : List Action) → ltb 0 a ≡ false → log ≡ before_attempt env plan a log
    before_attempt-first zero log e = refl
    before_attempt-first (suc a) log e = absurd (ground arith)

    back_off-log :
        (a : ℕ) (r : Run F)
        → ltb 0 a ≡ true
        → (back_off env plan a r).log ≡ before_attempt env plan a r.log
    unfolding back_off
    back_off-log zero r e = absurd (ground arith)
    back_off-log (suc a) r e = refl

    with_budget-Follows :
        (p : Progress F) (o : ℕ) {u : String}
        → Reached o p
        → o < pool env plan
        → p.attempts_made < plan.max_attempts
        → Selected env plan o u
        → Follows o (with_budget env plan p (index_at env plan o) u)
    unfolding with_budget ask_budget
    with_budget-Follows p o r lt more s =
        if-both (Follows o) (ltb 0 p.attempts_made)
          (λ later.
            if-both (Follows o) (ask_budget env p.run).0
              (λ granted. attempt-Follows _ o r (back_off-log p.attempts_made _ later) lt more s)
              (λ denied. r))
          (λ first. attempt-Follows p o r (before_attempt-first p.attempts_made _ first) lt more s)

    visit-Follows :
        (p : Progress F) (o : ℕ) {u : String}
        → Reached o p
        → o < pool env plan
        → p.attempts_made < plan.max_attempts
        → Selected env plan o u
        → Follows o (visit env plan p (index_at env plan o) u)
    unfolding visit ask_health
    visit-Follows p o {u} r lt more s =
        if-both (Follows o) plan.any_healthy
          (λ some_healthy.
            if-both (Follows o) (ask_health env u p.run).0
              (λ healthy. with_budget-Follows _ o r lt more s) (λ not_healthy. skip r))
          (λ all_down. with_budget-Follows _ o r lt more s)

    turn-Follows :
        (p : Progress F) (o : ℕ) → Reached o p → o < pool env plan → Follows o (turn env plan o p)
    unfolding turn
    turn-Follows p o r lt =
        if-both (Follows o) (leb plan.max_attempts p.attempts_made) (λ spent. r)
          (λ more.
            let (u, s) =
              get_elem?_of_lt plan.route.upstreams (index_at env plan o)
                (mod-lt (wrap_add plan.start_index o) (omega arith)) in
            rw s (visit-Follows p o r lt (ground arith) s))

    finish-Ends :
        (p : Progress F) (o : ℕ)
        → Reached o p
        → o ≤ pool env plan
        → Ends env plan (finish env plan p).0.log (finish env plan p).1
    unfolding finish
    finish-Ends p o r le = gives_up _ r le

    -- The loop after a round.
    abbrev pub resume : ℕ → ℕ → Turn H F → Run F × Outcome (Response H)
    resume left o (continues p) = loop env plan left (suc o) p
    resume left o (breaks p) = finish env plan p
    resume left o (returns r result) = (r, result)

    pub loop-resume :
        (left o : ℕ) (p : Progress F)
        → loop env plan (suc left) o p ≡ resume left o (turn env plan o p)
    unfolding loop
    loop-resume left o p = refl

    resume-Ends :
        (left o : ℕ) (t : Turn H F)
        → Follows o t
        → o < pool env plan
        → ((q : Progress F)
            → Reached (suc o) q
            → Ends env plan (loop env plan left (suc o) q).0.log (loop env plan left (suc o) q).1)
        → Ends env plan (resume left o t).0.log (resume left o t).1
    resume-Ends left o (continues q) f lt ih = ih q f
    resume-Ends left o (breaks q) f lt ih = finish-Ends q o f (omega arith)
    resume-Ends left o (returns r result) f lt ih = f

    loop-Ends :
        (left o : ℕ) (p : Progress F)
        → Reached o p
        → left + o ≡ pool env plan
        → Ends env plan (loop env plan left o p).0.log (loop env plan left o p).1
    loop-Ends zero o p r e = unfold loop in finish-Ends p o r (omega arith)
    loop-Ends (suc left) o p r e = rw (loop-resume left o p) (
        resume-Ends left o (turn env plan o p) (turn-Follows p o r (omega arith)) (omega arith)
          (λ q s. loop-Ends left (suc o) q s (omega arith)))

    -- From an empty log, the loop of `proxy_request` ends as the machine of rounds does.
    pub run_loop-Ends :
        (r : Run F) → r.log ≡ [] → Ends env plan (run_loop env plan r).0.log (run_loop env plan r).1
    unfolding run_loop note_request
    run_loop-Ends r e = loop-Ends (pool env plan) 0 _ (rw e begin) (omega arith)
