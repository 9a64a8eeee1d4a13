-- ===== src/Lib.antt =====
-- A verification library for the reverse proxy: its request path and the components it stands on.
--
-- A request is matched to a route by the longest prefix, the route's balancer picks the upstream to
-- begin with, and a loop goes over the upstreams from there: unhealthy ones are skipped, each attempt
-- but the first asks the retry budget and pauses, and each answer is noted by the health tracker and
-- the metrics. The rate limiter decides in front of all this whether a client is let through.
--
-- The parts, each with the file of the repository that it models:
--   Config: src/config.rs, the records that serde fills in. Config.Defaults has the defaults: a
--     file is given by its fields, those with a default as an `Option`.
--   Router: src/router.rs, `match_route`. A route holds its balancer by address, since requests
--     share it; the balancers stand in a list of `Proxy.World.World`.
--   Balancer: src/balancer.rs, the trait as a sum of its four implementations. A method on
--     `&self` that changes an atomic returns the new state, and `none` is a panic (a remainder by
--     zero, an index out of range). The hash of the standard library is the parameter `hash`. The
--     binary search runs on fuel, the length of the ring, which each round lowers.
--     Balancer.InFlight has the calls of any number of requests at once on one balancer, as a step
--     relation.
--   Health: src/health.rs, with `record_failure`, `record_success` and `is_healthy`.
--     Health.Breaker is the specification: one circuit breaker for each upstream. Health.Trace and
--     Health.Steady are about histories of calls.
--   RetryBudget: src/retry_budget.rs, with the specification in RetryBudget.Window.
--     `allow_retry` is modelled where the subtraction of the window from the clock is an instant,
--     which `has_cutoff` tests; where it is not, the code panics under its lock.
--   HealthCheck: src/health_check.rs, the probing task. The answers of the client, the clock and
--     what other tasks do between two probes are functions of the number of the probe.
--     HealthCheck.Shared has the probes among the requests that ask for the same upstream.
--   RateLimiter: src/rate_limiter.rs, `check` and the token buckets. RateLimiter.History has a
--     client's own bucket as the specification of what it is told. `check` is one step there;
--     RateLimiter.Sections has its counter, its sweep and its bucket as steps of their own, with
--     those of other calls between them.
--   Errors: src/errors.rs, with the results of fallible code: a value, an error, or a panic.
--   Http: what src/proxy.rs uses of hyper and of the http crate. Header maps, header values,
--     URIs and bodies are parameters; `HeaderLaws` states the documented behaviour of header maps,
--     for names in lower case, and of header values, by the characters of a text in Http.Text.
--     Http.Sample is an implementation of both, for runs.
--   Proxy: src/proxy.rs. Proxy.Headers and Proxy.Target are the parts of `forward_once` and of
--     `proxy_request` without effects, Proxy.World the shared state and the environment,
--     Proxy.Attempt one round of the loop, Proxy.Request the loop and what is around it.
--     Proxy.Rounds is the loop as a state machine over its actions. Proxy.Rule has a rule for what
--     holds of a request between its calls and during one, Proxy.Serving what it takes that the
--     balancers of the routes answer, Proxy.Access the single accesses of all tasks to the shared
--     state, as a step relation, with one request in Proxy.Access.Answered and any number of them
--     at once in Proxy.Access.Interleaved, and Proxy.Dropped is about a request whose future is
--     dropped.
--   Metrics: src/metrics.rs, the calls of it in src/proxy.rs, and the metrics server of
--     src/server.rs in Metrics.Scrape. The prometheus crate is a parameter, with its documented
--     behaviour in `PrometheusLaws`; which descriptions it takes stands in Metrics.Valid.
--   Middleware: src/middleware.rs, each layer as a function from services to services, and the
--     stack of them that src/server.rs builds for a connection. A future stands in
--     Middleware.Tower with its result, the state, and its pauses; which pause it is in when its
--     timeout runs out, or when it is dropped, is tokio's to say, in Middleware.Tokio.
--   Reload: src/config_reloader.rs, `apply_config`, which appends the new balancers to the store
--     and is one step, though the code stores the router and the configuration one after the
--     other. `proxy_request` is given its two snapshots as two arguments, so that they may be of
--     different configurations. Reload.File is `reload_config` and the loop over signals, from
--     what the file holds each time.
--   Server: src/server.rs and src/main.rs. `build_state` is `build_proxy` and the same lines of
--     `main`; Server.Start is `main` with its errors, and Server.Start.Explained says with which
--     state and tasks it ends; Server.Life the server under requests, clients that hang up,
--     signals to reload and probes, in any order, Server.Drain the `select!` that ends
--     `start_server`, and Server.ForTest the entry points for tests.
--   MockUpstream: src/bin/mock_upstream.rs, its arguments and its answers.
--
-- How the code is rendered: instants are nanoseconds and durations have the clock's unit, each
-- reading of the clock an argument or a reading of the environment. Methods that lock a mutex are
-- functions on what it guards, so that any interleaving of tasks is a sequence of calls; where a
-- request is suspended, the environment's `across` stands for all that other tasks do, and `woken` for
-- the instant at which it goes on; the code between two pauses takes no time. Machine integers wrap
-- as in a release build on a 64-bit target. `f64` is the interface Base.Float, of which the whole
-- numbers are an instance; IsExact states that arithmetic on small whole numbers is exact.
-- Hash maps are association lists. The loop over the upstreams is structural in the number of rounds
-- left. The client's answers, the random numbers and the buffered body belong to the environment.
--
-- Not modelled: the YAML parser, sockets and hyper's own loops, signal handlers, the text that the
-- crate encodes metrics in, and tracing. A reload that takes place while a request is suspended stands
-- in the request's environment, which adds the new balancers to the store.
pub mod Base
pub mod Config
pub mod Balancer
pub mod Router
pub mod Health
pub mod RetryBudget
pub mod RateLimiter
pub mod Errors
pub mod Http
pub mod Proxy
pub mod Reload
pub mod Middleware
pub mod HealthCheck
pub mod Server
pub mod Metrics
pub mod MockUpstream
