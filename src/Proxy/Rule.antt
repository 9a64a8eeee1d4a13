-- ===== src/Proxy/Rule.antt =====
-- A proof rule for `proxy_request` in src/proxy.rs: what holds of a request between its calls, and
-- what during a call.
pub mod Requests
use Prim.Native.String.{String}
use l7_proxy.Base.{
  ℕ, zero, suc, ◌%◌, ◌≡◌, refl, ◌⊎◌, inl, inr, List, [], ◌∷◌, Bool, false, none, some, ltb, leb,
  if-both, get_elem?, set, length, wrap_add, Bool-cases, Option-cases,
}
use l7_proxy.Base.Float.{Float}
use l7_proxy.Http.{Http, Request, Response}
use l7_proxy.Errors.{
  ProxyError, upstream_failure, upstream_timeout, no_route, upstream_failed, invalid_uri,
  no_upstream, Outcome, ok, err, panicked, built,
}
use l7_proxy.Config.{ServerConfig}
use l7_proxy.Balancer.{LoadBalancer, record_start, record_done, next_index_for_key}
use l7_proxy.Router.{Route, Router, match_route}
use l7_proxy.Proxy.World.{
  Env, World, Run, Action, requests_total, request_duration, requests_total, retries_total,
  errors_total, slept, started, finished, note, with_world, update_balancer, pause, pause_if,
  ask_health, ask_budget, note_failure, note_success, note_request,
}
use l7_proxy.Proxy.Attempt.{
  Plan, is_server_error, Progress, Turn, continues, breaks, returns, dispatched, begin_call,
  end_call, failed, succeeded, settle, after_call, attempt, back_off, with_budget, visit, turn,
}
use l7_proxy.Proxy.Request.{
  finish, loop, run_loop, any_healthy, choose_start, serve_route, proxy_request,
}
use l7_proxy.Proxy.Loop.{resume, loop-resume}

-- The actions that are neither the start nor the end of a call, and do not count a request.
abbrev pub IsQuiet : Action → Type 0
IsQuiet (retries_total route) = Unit
IsQuiet (errors_total route kind) = Unit
IsQuiet (slept t) = Unit
IsQuiet _ = ⊥

-- The last that a request does, if it has a response or has failed with all upstreams.
abbrev pub count_request : String → String → String → ℕ → {F : Type 0} → Run F → Run F
count_request method route status took r =
    note (request_duration method route took)
      (note (requests_total method route status) (record r { readings = suc r.readings }))

-- What to show of `P`, which holds between the calls, of `Q index`, which holds during a call of the
-- upstream `index`, for a route whose balancer is at `address`, and of `E`, which holds when the
-- request has been counted.
pub record Rule {H : Http} {F : Type 0} ⦃f : Float F⦄ (hash : String → ℕ) (env : Env H F)
    (address : ℕ) (P : Run F → Type 0) (Q : ℕ → Run F → Type 0) (E : Run F → Type 0) : Type 0 where
  pub asked : (r : Run F) (u : String) → P r → P (ask_health env u r).1
  pub failed : (r : Run F) (u : String) → P r → P (note_failure env u r)
  pub succeeded : (r : Run F) (u : String) → P r → P (note_success env u r)
  pub requested : (r : Run F) → P r → P (note_request env r)
  pub granted : (r : Run F) → P r → P (ask_budget env r).1
  pub chosen :
      (r : Run F) (n : ℕ) (key : String) (b : LoadBalancer)
      → get_elem? r.world.balancers address ≡ some b
      → P r
      → P (
          with_world r (record r.world {
            balancers = set r.world.balancers address (next_index_for_key hash b n key).1;
          }))
  pub told : (r : Run F) (a : Action) → IsQuiet a → P r → P (note a r)
  pub counted :
      (r : Run F) (method route status : String) (took : ℕ)
      → P r
      → E (count_request method route status took r)
  pub slept : (r : Run F) → P r → P (pause env r)
  pub started :
      (r : Run F) (index : ℕ)
      → P r
      → Q index (
          note
            (started index)
            (with_world r (update_balancer (λ b. record_start b index) address r.world)))
  pub done :
      (r : Run F) (index : ℕ) (waits : Bool)
      → Q index r
      → let r' = pause_if env waits r in
        P (
          note
            (finished index)
            (with_world r' (update_balancer (λ b. record_done b index) address r'.world)))

module _ {H : Http} {F : Type 0} ⦃f : Float F⦄ {hash : String → ℕ} {env : Env H F} {address : ℕ}
    {P : Run F → Type 0} {Q : ℕ → Run F → Type 0} {E : Run F → Type 0}
    (rule : Rule hash env address P Q E) where
  -- How a request ends: counted, if it has a response; and between its calls, but for a panic, which
  -- may come during one.
  abbrev pub Ended : Run F × Outcome (Response H) → Type 0
  Ended (r, ok resp) = E r
  Ended (r, err e) = P r ⊎ E r
  Ended (r, panicked) = P r ⊎ ((index : ℕ) × Q index r)

  abbrev Holds : Turn H F → Type 0
  Holds (continues p) = P p.run
  Holds (breaks p) = P p.run
  Holds (returns r result) = Ended (r, result)

module _ {H : Http} {F : Type 0} ⦃f : Float F⦄ {hash : String → ℕ} {env : Env H F}
    {P : Run F → Type 0} {Q : ℕ → Run F → Type 0} {E : Run F → Type 0} where
  module _ (plan : Plan H) (rule : Rule hash env plan.route.balancer P Q E) where
    failed-Holds :
        (p : Progress F) (u kind : String) (e : ProxyError)
        → P p.run
        → Holds rule (failed env plan p u kind e)
    unfolding failed
    failed-Holds p u kind e h = rule.told _ _ tt (rule.failed p.run u h)

    succeeded-Holds :
        (p : Progress F) (u : String) (resp : Response H)
        → P p.run
        → Holds rule (succeeded env plan p u resp)
    unfolding succeeded
    succeeded-Holds p u resp h =
        rule.counted (note_success env u p.run) _ _ _ _ (rule.succeeded p.run u h)

    settle-Holds :
        (p : Progress F) (u : String) (result : Outcome (Response H))
        → P p.run
        → Holds rule (settle env plan p u result)
    unfolding settle
    settle-Holds p u (ok resp) h =
        if-both (Holds rule) (is_server_error resp.status)
          (λ bad. failed-Holds p u "5xx" upstream_failure h) (λ fine. succeeded-Holds p u resp h)
    settle-Holds p u (err upstream_failure) h = failed-Holds p u "connection" upstream_failure h
    settle-Holds p u (err upstream_timeout) h = failed-Holds p u "timeout" upstream_timeout h
    settle-Holds p u (err no_route) h = inl h
    settle-Holds p u (err upstream_failed) h = inl h
    settle-Holds p u (err invalid_uri) h = inl h
    settle-Holds p u (err no_upstream) h = inl h
    settle-Holds p u panicked h = inl h

    after_call-Holds :
        (p : Progress F) (i : ℕ) (u : String) (result : Outcome (Response H))
        → Q i p.run
        → Holds rule (after_call env plan p i u result)
    unfolding after_call end_call
    after_call-Holds p i u (ok resp) h =
        settle-Holds _ u (ok resp) (rule.done p.run i (dispatched env plan u) h)
    after_call-Holds p i u (err e) h =
        settle-Holds _ u (err e) (rule.done p.run i (dispatched env plan u) h)
    after_call-Holds p i u panicked h = inr (i, h)

    attempt-Holds :
        (p : Progress F) (i : ℕ) (u : String) → P p.run → Holds rule (attempt env plan p i u)
    unfolding attempt begin_call
    attempt-Holds p i u h = after_call-Holds _ i u _ (rule.started p.run i h)

    back_off-keeps : (n : ℕ) (r : Run F) → P r → P (back_off env plan n r)
    unfolding back_off
    back_off-keeps n r h = rule.slept _ (rule.told _ _ tt (rule.told _ _ tt h))

    with_budget-Holds :
        (p : Progress F) (i : ℕ) (u : String) → P p.run → Holds rule (with_budget env plan p i u)
    unfolding with_budget
    with_budget-Holds p i u h =
        let asked = rule.granted p.run h in
        if-both (Holds rule) (ltb 0 p.attempts_made)
          (λ later.
            if-both (Holds rule) (ask_budget env p.run).0
              (λ granted. attempt-Holds _ i u (back_off-keeps p.attempts_made _ asked))
              (λ denied. asked))
          (λ first. attempt-Holds p i u h)

    visit-Holds :
        (p : Progress F) (i : ℕ) (u : String) → P p.run → Holds rule (visit env plan p i u)
    unfolding visit
    visit-Holds p i u h =
        let asked = rule.asked p.run u h in
        if-both (Holds rule) plan.any_healthy
          (λ some_healthy.
            if-both (Holds rule) (ask_health env u p.run).0
              (λ healthy. with_budget-Holds _ i u asked) (λ not_healthy. asked))
          (λ all_down. with_budget-Holds p i u h)

    turn-Holds : (o : ℕ) (p : Progress F) → P p.run → Holds rule (turn env plan o p)
    unfolding turn
    turn-Holds o p h =
        if-both (Holds rule) (leb plan.max_attempts p.attempts_made) (λ spent. h)
          (λ more.
            let at =
              get_elem? plan.route.upstreams
                (wrap_add plan.start_index o % length plan.route.upstreams) in
            elim (Option-cases at) [
              | inl outside ↦ rw outside (inl h)
              | inr (u, s) ↦ rw s (visit-Holds p _ u h)
            ])

    finish-Ended : (p : Progress F) → P p.run → Ended rule (finish env plan p)
    unfolding finish
    finish-Ended p h = inr (rule.counted p.run _ _ _ _ h)

    resume-Ended :
        (left o : ℕ) (t : Turn H F)
        → Holds rule t
        → ((q : Progress F) → P q.run → Ended rule (loop env plan left (suc o) q))
        → Ended rule (resume env plan left o t)
    resume-Ended left o (continues q) h ih = ih q h
    resume-Ended left o (breaks q) h ih = finish-Ended q h
    resume-Ended left o (returns r result) h ih = h

    loop-Ended : (left o : ℕ) (p : Progress F) → P p.run → Ended rule (loop env plan left o p)
    loop-Ended zero o p h = unfold loop in finish-Ended p h
    loop-Ended (suc left) o p h = rw (loop-resume env plan left o p) (
        resume-Ended left o (turn env plan o p) (turn-Holds o p h)
          (λ q k. loop-Ended left (suc o) q k))

    pub run_loop-Ended : (r : Run F) → P r → Ended rule (run_loop env plan r)
    unfolding run_loop
    run_loop-Ended r h = loop-Ended (length plan.route.upstreams) 0 _ (rule.requested r h)
