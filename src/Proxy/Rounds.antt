-- ===== src/Proxy/Rounds.antt =====
-- The rounds of the loop of `proxy_request` as a state machine over what happens outside.
use Prim.Native.String.{String}
use l7_proxy.Base.{
  ℕ, zero, suc, ◌/◌, ◌%◌, ◌≤◌, ◌<◌, ◌≡◌, List, [], ◌∷◌, true, false, Option, none, some, get_elem?,
  length, wrap_add,
}
use l7_proxy.Base.Decimal.{show}
use l7_proxy.Http.{Http, Response}
use l7_proxy.Errors.{ProxyError, upstream_failure, upstream_timeout, Outcome, ok, err, panicked}
use l7_proxy.Proxy.World.{
  Env, Action, requests_total, request_duration, retries_total, errors_total, slept, started,
  finished,
}
use l7_proxy.Proxy.Attempt.{Plan, is_server_error, exp_delay, total_delay, forward_once}
use l7_proxy.Proxy.Request.{or_failure, error_status}

module _ {H : Http} where
  -- The results that lead to the next upstream, with the kind of error and the error.
  pub data Fails : Outcome (Response H) → String → ProxyError → Type 0 where
    server_error :
        {resp : Response H}
        → is_server_error resp.status ≡ true
        → Fails (ok resp) "5xx" upstream_failure
    refused : Fails (err upstream_failure) "connection" upstream_failure
    late : Fails (err upstream_timeout) "timeout" upstream_timeout

module _ {H : Http} {F : Type 0} (env : Env H F) (plan : Plan H) where
  abbrev pub pool : ℕ
  pool = length plan.route.upstreams

  abbrev pub index_at : ℕ → ℕ
  index_at offset = wrap_add plan.start_index offset % pool

  -- The upstream of a round.
  abbrev pub Selected : ℕ → String → Type 0
  Selected offset u = get_elem? plan.route.upstreams (index_at offset) ≡ some u

  -- The pause before the attempt after `a` others.
  abbrev pub backoff : ℕ → ℕ
  backoff a =
      let delay = exp_delay plan.backoff_base_ms a in total_delay delay (env.random a (delay / 2))

  abbrev pub before_attempt : ℕ → List Action → List Action
  before_attempt zero log = log
  before_attempt (suc k) log = slept (backoff (suc k)) ∷ retries_total plan.route.prefix ∷ log

  abbrev pub called : ℕ → ℕ → List Action → List Action
  called offset a log =
      finished (index_at offset) ∷ started (index_at offset) ∷ before_attempt a log

  abbrev pub counted : ℕ → String → List Action → List Action
  counted took status log =
      request_duration plan.method plan.route.prefix took
      ∷ requests_total plan.method plan.route.prefix status
      ∷ log

  -- After so many rounds there were so many attempts, with this error last, and these actions.
  pub data Rounds : ℕ → ℕ → Option ProxyError → List Action → Type 0 where
    begin : Rounds 0 0 none []
    skip :
        {o a : ℕ} {l : Option ProxyError} {log : List Action}
        → Rounds o a l log
        → Rounds (suc o) a l log
    fails :
        {o a : ℕ} {l : Option ProxyError} {log : List Action} {u kind : String} {e : ProxyError}
        → Rounds o a l log
        → a < plan.max_attempts
        → Selected o u
        → Fails (forward_once env plan a u) kind e
        → Rounds (suc o) (suc a) (some e) (errors_total plan.route.prefix kind ∷ called o a log)

  -- How the loop ends.
  pub data Ends : List Action → Outcome (Response H) → Type 0 where
    gives_up :
        {o a : ℕ} {l : Option ProxyError} {log : List Action} (took : ℕ)
        → Rounds o a l log
        → o ≤ pool
        → Ends (counted took (error_status (or_failure l)) log) (err (or_failure l))
    serves :
        {o a : ℕ} {l : Option ProxyError} {log : List Action} {u : String} {resp : Response H}
        (took : ℕ)
        → Rounds o a l log
        → o < pool
        → a < plan.max_attempts
        → Selected o u
        → forward_once env plan a u ≡ ok resp
        → is_server_error resp.status ≡ false
        → Ends (counted took (show resp.status) (called o a log)) (ok resp)
    panics :
        {o a : ℕ} {l : Option ProxyError} {log : List Action} {u : String}
        → Rounds o a l log
        → o < pool
        → a < plan.max_attempts
        → Selected o u
        → forward_once env plan a u ≡ panicked
        → Ends (started (index_at o) ∷ before_attempt a log) panicked
