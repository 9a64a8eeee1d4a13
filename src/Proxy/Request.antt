-- ===== src/Proxy/Request.antt =====
-- src/proxy.rs, `proxy_request`: routing, the choice of upstreams, and the loop over them.
pub mod Total
use Prim.Native.String.{String}
use mathlib.Core.Option
use l7_proxy.Base.{
  ℕ, zero, suc, ◌-◌, List, [], ◌∷◌, Bool, true, false, Option, none, some, if◌then◌else◌, get_elem?,
  set, length, wrap_add,
}
use l7_proxy.Base.Float.{Float}
use l7_proxy.Http.{Http, Request, Response}
use l7_proxy.Errors.{
  ProxyError, upstream_failure, upstream_timeout, Outcome, ok, err, panicked, built,
}
use l7_proxy.Config.{ServerConfig}
use l7_proxy.Balancer.{next_index_for_key}
use l7_proxy.Router.{Route, Router, match_route}
use l7_proxy.Proxy.Target.{final_path}
use l7_proxy.Proxy.World.{
  Env, World, Run, requests_total, request_duration, note, with_world, pause, ask_health,
  note_request,
}
use l7_proxy.Proxy.Attempt.{Plan, Progress, continues, breaks, returns, turn}

-- `last_error.unwrap_or(ProxyError::UpstreamFailure)`
abbrev pub or_failure : Option ProxyError → ProxyError
or_failure none = upstream_failure
or_failure (some e) = e

-- The status that the metrics are given for a request without a response.
abbrev pub error_status : ProxyError → String
error_status upstream_timeout = "504"
error_status _ = "502"

module _ {H : Http} {F : Type 0} ⦃f : Float F⦄ (env : Env H F) (plan : Plan H) where
  -- After the loop: the metrics of a failed request.
  unfoldable pub finish : Progress F → Run F × Outcome (Response H)
  finish p =
      let took = env.now p.run.readings - plan.start in
      let error = or_failure p.last_error in
      let counted =
        note (requests_total plan.method plan.route.prefix (error_status error))
          (record p.run { readings = suc p.run.readings }) in
      (note (request_duration plan.method plan.route.prefix took) counted, err error)

  -- `for offset in 0..upstream_count`, with `left` rounds to go.
  unfoldable pub loop : ℕ → ℕ → Progress F → Run F × Outcome (Response H)
  loop zero offset p = finish p
  loop (suc left) offset p = elim (turn env plan offset p) [
    | continues p' ↦ loop left (suc offset) p'
    | breaks p' ↦ finish p'
    | returns r result ↦ (r, result)
  ]

  -- From the budget's record of the request on.
  unfoldable pub run_loop : Run F → Run F × Outcome (Response H)
  run_loop r =
      loop (length plan.route.upstreams) 0
        (record { run = note_request env r; attempts_made = 0; last_error = none })

module _ {H : Http} {F : Type 0} (env : Env H F) where
  -- `route.upstreams.iter().any(|u| state.health.is_healthy(u))`
  unfoldable pub any_healthy : List String → Run F → Bool × Run F
  any_healthy [] r = (false, r)
  any_healthy (u ∷ us) r =
      let (healthy, r') = ask_health env u r in
      let rest = any_healthy us r' in if healthy then (true, r') else rest

  -- The choice of the first upstream; `none` for a panic.
  unfoldable pub choose_start : (String → ℕ) → Route → String → Run F → Option ℕ × Run F
  choose_start hash route path r = elim (get_elem? r.world.balancers route.balancer) [
    | none ↦ (none, r)
    | some b ↦
        let (index, b') = next_index_for_key hash b (length route.upstreams) path in
        (
          index,
          with_world r (record r.world { balancers = set r.world.balancers route.balancer b' }),
        )
  ]

module _ {H : Http} {F A : Type 0} ⦃f : Float F⦄ (hash : String → ℕ) (ip_text : A → String)
    (env : Env H F) where
  -- From the buffered body on.
  unfoldable pub serve_route :
      ServerConfig F → Route → Request H A → H.Body → Run F → Run F × Outcome (Response H)
  serve_route server route req body r =
      let (index, r') = choose_start env hash route req.path r in
      let (healthy, r'') = any_healthy env route.upstreams r' in
      elim index [
        | none ↦ (r', panicked)
        | some start_index ↦
            run_loop env
              (record {
                method = req.method;
                route = route;
                final_path = final_path route.prefix req.path_and_query;
                headers = req.headers;
                whole_body = body;
                client_ip = Option.map ip_text req.remote;
                start_index = start_index;
                any_healthy = healthy;
                max_attempts = wrap_add server.max_retries 1;
                backoff_base_ms = server.retry_backoff_ms;
                start = env.now 0;
              })
              r''
      ]

  -- The request, on the snapshots of configuration and router that it has loaded.
  unfoldable pub proxy_request :
      ServerConfig F → Router → World F → Request H A → Run F × Outcome (Response H)
  proxy_request server router w req =
      let r : Run F = record { world = w; log = []; readings = 1; pauses = 0; suspended = [] } in
      elim (match_route router req.path) [
        | none ↦ (
          note (requests_total req.method "unmatched" "404") r,
          ok (built H 404 "No matching route"),
        )
        | some route ↦ elim env.buffered [
          | none ↦ (pause env r, err upstream_failure)
          | some body ↦ serve_route server route req body (pause env r)
        ]
      ]
