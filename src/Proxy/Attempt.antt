-- ===== src/Proxy/Attempt.antt =====
-- src/proxy.rs: `forward_once`, and one round of the loop of `proxy_request`.
pub mod Results
use Prim.Native.String.{String}
use l7_proxy.Base.{
  ℕ, suc, ◌-◌, ◌*◌, ◌/◌, ◌%◌, ◌^◌, min, Bool, ◌&&◌, Option, none, some, ltb, leb, if◌then◌else◌,
  get_elem?, length, wrap_add, u64_mod,
}
use l7_proxy.Base.Text.{is_some}
use l7_proxy.Base.Decimal.{show}
use l7_proxy.Base.Float.{Float}
use l7_proxy.Http.{Http, Response, Answer, responded, broken, elapsed}
use l7_proxy.Errors.{
  ProxyError, upstream_failure, upstream_timeout, Outcome, ok, err, panicked, ◌>>=◌, or_err,
}
use l7_proxy.Balancer.{record_start, record_done}
use l7_proxy.Router.{Route}
use l7_proxy.Proxy.Headers.{strip_hop_by_hop_headers, normalize}
use l7_proxy.Proxy.Target.{new_uri}
use l7_proxy.Proxy.World.{
  Env, Run, requests_total, request_duration, retries_total, errors_total, slept, started, finished,
  note, with_world, update_balancer, pause, pause_if, ask_health, note_failure, note_success,
  ask_budget,
}

-- The values that `proxy_request` has computed when its loop begins.
pub record Plan (H : Http) : Type 0 where
  pub method : String
  pub route : Route
  pub final_path : String
  pub headers : H.HeaderMap
  pub whole_body : H.Body
  pub client_ip : Option String
  pub start_index : ℕ
  pub any_healthy : Bool
  pub max_attempts : ℕ
  pub backoff_base_ms : ℕ
  -- The clock's first reading.
  pub start : ℕ

-- `StatusCode::is_server_error`
abbrev pub is_server_error : ℕ → Bool
is_server_error status = leb 500 status && ltb status 600

-- `base.saturating_mul(1 << (attempts_made - 1))`, where a shift in a release build is taken
-- modulo 64.
unfoldable pub exp_delay : ℕ → ℕ → ℕ
exp_delay base attempts_made = min (base * 2 ^ ((attempts_made - 1) % 64)) (u64_mod - 1)

unfoldable pub total_delay : ℕ → ℕ → ℕ
total_delay delay jitter = wrap_add delay jitter

-- The variables of the loop.
pub record Progress (F : Type 0) : Type 0 where
  pub run : Run F
  pub attempts_made : ℕ
  pub last_error : Option ProxyError

-- How a round ends: `continue`, `break` or `return`.
pub data Turn (H : Http) (F : Type 0) : Type 0 where
  continues : Progress F → Turn H F
  breaks : Progress F → Turn H F
  returns : Run F → Outcome (Response H) → Turn H F

module _ {H : Http} {F : Type 0} (env : Env H F) (plan : Plan H) where
  -- The client's answer, under the timeout.
  unfoldable pub received : Answer H → Outcome (Response H)
  received (responded resp) = ok (record resp { headers = strip_hop_by_hop_headers H resp.headers })
  received broken = err upstream_failure
  received elapsed = err upstream_timeout

  -- The n-th call of `forward_once` for this request.
  unfoldable pub forward_once : ℕ → String → Outcome (Response H)
  forward_once n upstream = do
    uri ← or_err (H.parse_uri (new_uri upstream plan.final_path)) upstream_failure
    headers ← normalize H plan.headers env.uuid plan.client_ip
    received (
        env.reply n
          (record { method = plan.method; uri = uri; headers = headers; body = plan.whole_body }))

  -- `record_start`, and `record_done` after the call has returned.
  unfoldable pub begin_call : ℕ → Run F → Run F
  begin_call index r =
      note (started index)
        (with_world r (update_balancer (λ b. record_start b index) plan.route.balancer r.world))

  unfoldable pub end_call : ℕ → Run F → Run F
  end_call index r =
      note (finished index)
        (with_world r (update_balancer (λ b. record_done b index) plan.route.balancer r.world))

  -- An upstream error that is retried: passive health, the metric, and `last_error`.
  unfoldable pub failed : Progress F → String → String → ProxyError → Turn H F
  failed p upstream kind e = continues (record p {
    run = note (errors_total plan.route.prefix kind) (note_failure env upstream p.run);
    last_error = some e;
  })

  -- A response that is handed to the client.
  unfoldable pub succeeded : Progress F → String → Response H → Turn H F
  succeeded p upstream resp =
      let r = note_success env upstream p.run in
      let took = env.now r.readings - plan.start in
      let counted = note (requests_total plan.method plan.route.prefix (show resp.status)) r in
      returns
        (note (request_duration plan.method plan.route.prefix took)
          (record counted { readings = suc r.readings }))
        (ok resp)

  -- The `match result`.
  unfoldable pub settle : Progress F → String → Outcome (Response H) → Turn H F
  settle p upstream (ok resp) =
      if is_server_error resp.status
      then failed p upstream "5xx" upstream_failure
      else succeeded p upstream resp
  settle p upstream (err upstream_failure) = failed p upstream "connection" upstream_failure
  settle p upstream (err upstream_timeout) = failed p upstream "timeout" upstream_timeout
  settle p upstream (err e) = returns p.run (err e)
  settle p upstream panicked = returns p.run panicked

  -- Whether `forward_once` comes to the client's call, where it is suspended.
  unfoldable pub dispatched : String → Bool
  dispatched upstream = is_some (H.parse_uri (new_uri upstream plan.final_path))

  -- After the call: a panic skips `record_done`.
  unfoldable pub after_call : Progress F → ℕ → String → Outcome (Response H) → Turn H F
  after_call p index upstream panicked = returns p.run panicked
  after_call p index upstream result =
      settle (record p { run = end_call index (pause_if env (dispatched upstream) p.run) }) upstream
        result

  -- From `attempts_made += 1` to the end of the round.
  unfoldable pub attempt : Progress F → ℕ → String → Turn H F
  attempt p index upstream =
      after_call (record p { run = begin_call index p.run; attempts_made = suc p.attempts_made })
        index upstream (forward_once p.attempts_made upstream)

  -- The metric of a retry, and the pause before it.
  unfoldable pub back_off : ℕ → Run F → Run F
  back_off attempts_made r =
      let delay = exp_delay plan.backoff_base_ms attempts_made in
      let jitter = env.random attempts_made (delay / 2) in
      pause env (note (slept (total_delay delay jitter)) (note (retries_total plan.route.prefix) r))

  module _ ⦃f : Float F⦄ where
    -- The budget, for all attempts but the first.
    unfoldable pub with_budget : Progress F → ℕ → String → Turn H F
    with_budget p index upstream =
        let (granted, r) = ask_budget env p.run in
        if ltb 0 p.attempts_made
        then if granted
          then attempt (record p { run = back_off p.attempts_made r }) index upstream
          else breaks (record p { run = r })
        else attempt p index upstream

    -- Unhealthy upstreams are skipped, unless all were unhealthy.
    unfoldable pub visit : Progress F → ℕ → String → Turn H F
    visit p index upstream =
        let (healthy, r) = ask_health env upstream p.run in
        if plan.any_healthy
        then if healthy
          then with_budget (record p { run = r }) index upstream
          else continues (record p { run = r })
        else with_budget p index upstream

    -- One round.
    unfoldable pub turn : ℕ → Progress F → Turn H F
    turn offset p =
        let index = wrap_add plan.start_index offset % length plan.route.upstreams in
        if leb plan.max_attempts p.attempts_made
        then breaks p
        else elim (get_elem? plan.route.upstreams index) [
          | none ↦ returns p.run panicked
          | some upstream ↦ visit p index upstream
        ]
