-- ===== src/Server/Life.antt =====
-- The life of the server: requests through the layers of src/server.rs, signals to reload, and what
-- the prober of src/health_check.rs notes, in any order, from the state that `build_proxy` builds.
pub mod Invariant
pub mod Follows
pub mod Sound
use Prim.Native.String.{String}
use l7_proxy.Base.{ℕ, List, [], ◌∷◌, Option, none, some, map}
use l7_proxy.Base.Float.{Float}
use l7_proxy.Http.{Http, Request, Response}
use l7_proxy.Errors.{Outcome}
use l7_proxy.Config.{Config}
use l7_proxy.Health.Trace
use l7_proxy.RateLimiter.{IpAddr, RateLimiter}
use l7_proxy.Reload.File.{reload_config}
use l7_proxy.Proxy.World.{World, Env}
use l7_proxy.Proxy.Request.{proxy_request}
use l7_proxy.Middleware.Tower.{Future, Handler, Service, over}
use l7_proxy.Middleware.{connection}
use l7_proxy.Middleware.Tokio.{Runtime}
use l7_proxy.Server.{State, world, with_world}

-- One request of a client, with all that its environment decides: the clock's readings in the
-- limiter, the instant at which it reaches the timeout, and what the other tasks do from its last
-- pause until its future is dropped, where it is.
pub record Visit (H : Http) (F : Type 0) : Type 0 where
  pub env : Env H F
  pub remote_ip : IpAddr
  pub swept : ℕ
  pub made : ℕ
  pub now : ℕ
  pub begun : ℕ
  pub others : World F → World F
  pub req : Request H IpAddr

-- When a client was heard, when it is answered, and with what.
pub record Reply (H : Http) : Type 0 where
  pub heard : ℕ
  pub told : ℕ
  pub result : Outcome (Response H)

abbrev pub and_some : {A : Type 0} → Option A → List A → List A
and_some none xs = xs
and_some (some x) xs = x ∷ xs

-- What happens to the server: a request, one whose client hangs up at an instant, a signal to reload,
-- with what the file holds, or notes in the health tracker.
pub data Event (H : Http) (F : Type 0) : Type 0 where
  visited : Visit H F → Event H F
  abandoned : ℕ → Visit H F → Event H F
  signalled : Option String → Event H F
  probed : List Trace.Event → Event H F

-- The state when a call of the service is over.
abbrev pub settled : {F : Type 0} → RateLimiter F × State F → State F
settled (l, s) = record s { rate_limiter = l }

module _ {H : Http} {F : Type 0} ⦃f : Float F⦄ ⦃runtime : Runtime⦄ (hash : String → ℕ)
    (ip_text : IpAddr → String) where
  -- `proxy_request` on the snapshots of configuration and router in force.
  unfoldable pub handle : Env H F → Handler H (State F)
  handle env req s =
      let (r, result) =
        proxy_request hash ip_text env s.app.config.server s.app.router (world s) req in
      record {
        result = result;
        state = with_world s r.world;
        suspended = map (λ p. (p.until, with_world s p.world)) r.suspended;
      }

  -- `make_svc`, for the connection of a visit: `overall_timeout` is read once, when the server starts.
  abbrev pub make_svc : ℕ → Visit H F → Service H (RateLimiter F × State F)
  make_svc overall_timeout v =
      connection H overall_timeout v.remote_ip v.swept v.made v.now v.begun
        (λ s. with_world s (v.others (world s))) (handle v.env)

  -- A request through the layers of its connection.
  unfoldable pub serve : ℕ → Visit H F → State F → Reply H × State F
  serve overall_timeout v s =
      let future = (make_svc overall_timeout v).call v.req (s.rate_limiter, s) in
      (
        record { heard = v.begun; told = over v.begun future.suspended; result = future.result },
        settled future.state,
      )

  -- The same when the client hangs up: hyper drops the future of a connection that is closed, and
  -- nobody is answered, if the future is not done by then.
  unfoldable pub abandon : ℕ → ℕ → Visit H F → State F → Option (Reply H) × State F
  abandon overall_timeout hung_up v s =
      let future = (make_svc overall_timeout v).call v.req (s.rate_limiter, s) in
      let (reply, s') = serve overall_timeout v s in
      elim (runtime.dropped_in hung_up future.suspended) [
        | none ↦ (some reply, s')
        | some ((until, (l, left)), earlier) ↦
            (none, settled (l, with_world left (v.others (world left))))
      ]

  module _ (parse : String → Option (Config F)) (overall_timeout : ℕ) where
    -- The answers to the requests among the events, in order, and the state at the end.
    unfoldable pub serve_all : State F → List (Event H F) → List (Reply H) × State F
    serve_all s [] = ([], s)
    serve_all s (visited v ∷ es) =
        let (reply, s') = serve overall_timeout v s in
        let (replies, end) = serve_all s' es in (reply ∷ replies, end)
    serve_all s (abandoned hung_up v ∷ es) =
        let (reply, s') = abandon overall_timeout hung_up v s in
        let (replies, end) = serve_all s' es in (and_some reply replies, end)
    serve_all s (signalled content ∷ es) =
        serve_all (record s { app = (reload_config parse hash s.app content).1 }) es
    serve_all s (probed notes ∷ es) = serve_all (record s { health = Trace.run s.health notes }) es
