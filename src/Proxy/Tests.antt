-- ===== src/Proxy/Tests.antt =====
-- Runs of the model of src/proxy.rs on two upstreams, and examples of what is proved of it.
use Prim.Native.String.{String, len, ◌++◌}
use l7_proxy.Base.{
  ℕ, zero, suc, subst, ◌≡◌, ◌≤◌, ◌↔◌, refl, inl, inr, List, [], ◌∷◌, true, none, some, arith, All,
}
use l7_proxy.Base.Float.{whole}
use l7_proxy.Http.{HeaderLaws, Request, Outgoing, Answer, responded}
use l7_proxy.Http.Sample.{sample, sample-HeaderLaws}
use l7_proxy.Errors.{ok}
use l7_proxy.Config.{ServerConfig}
use l7_proxy.Balancer.{rr, lc}
use l7_proxy.Router.{Route, Router, match_route}
use l7_proxy.Proxy.Headers.{normalize}
use l7_proxy.Proxy.Headers.Normalized.{expected, normalize-expected}
use l7_proxy.Proxy.Target.{new_uri, final_path, authority, authority_after, stays_on_upstream_iff}
use l7_proxy.Proxy.Serving.{HasBalancer, Serves}
use l7_proxy.Http.Text.{is_lower_case}
use l7_proxy.Proxy.Access.{Accesses, unchanged, SameLimits, asks, InReach, AllSubtract}
use l7_proxy.Proxy.Access.Answered.{proxy_request-answered}
use l7_proxy.Proxy.Access.Interleaved
use l7_proxy.Proxy.Access.Interleaved.{
  Task, run_of, goes_on, ends, Reached, moves, other, Reached_sound,
}
use l7_proxy.Health.{is_healthy}
use l7_proxy.Health.Breaker.{IsValid}
use l7_proxy.Proxy.Dropped.{AtPause, AtEnd, proxy_request-dropped}
use l7_proxy.Proxy.Dropped.Counters.{Counted, CountedAtEnd, proxy_request-Counted}
use l7_proxy.Proxy.World.{World, Env, Run}
use l7_proxy.Proxy.Attempt.{Plan}
use l7_proxy.Proxy.Request.{run_loop, proxy_request}
use l7_proxy.Proxy.Request.Total.{IsCalm, Sendable}
use l7_proxy.Proxy.Rounds.{Ends, pool}
use l7_proxy.Proxy.Loop.{run_loop-Ends}
use l7_proxy.Proxy.Loop.Counts.{Closed, run_loop-Closed}
use l7_proxy.Proxy.Loop.Order.{Distinct, starts, run_loop-Distinct}
use l7_proxy.Proxy.Loop.Told.{Told, run_loop-Told}
use l7_proxy.Proxy.Loop.Backoff.{Doubling, pauses, run_loop-Doubling}

-- The first attempt is answered with a status of 500, the second with one of 200.
abbrev reply : ℕ → Outgoing sample → Answer sample
reply zero req = responded (record { status = 500; headers = []; body = "" })
reply (suc n) req = responded (record { status = 200; headers = []; body = req.uri })

abbrev env : Env sample ℕ
env = record {
  now = λ n. n;
  reply = reply;
  random = λ n most. 0;
  across = λ n w. w;
  woken = λ n. n;
  uuid = "id";
  buffered = some "body";
}

abbrev route : Route
route = record { prefix = "/api"; upstreams = "http://a" ∷ "http://b" ∷ []; balancer = 0 }

abbrev world : World ℕ
world = record {
  health = record { state = []; failure_threshold = 3; cooldown = 10 };
  budget = record { requests = []; retries = []; budget_percent = 100; window = 10 };
  balancers = rr (record { counter = 1 }) ∷ [];
}

abbrev plan : Plan sample
plan = record {
  method = "GET";
  route = route;
  final_path = "/users";
  headers = [];
  whole_body = "body";
  client_ip = none;
  start_index = 1;
  any_healthy = true;
  max_attempts = 3;
  backoff_base_ms = 10;
  start = 0;
}

abbrev run : Run ℕ
run = record { world = world; log = []; readings = 1; pauses = 0; suspended = [] }

run_loop-Ends_example : Ends env plan (run_loop env plan run).0.log (run_loop env plan run).1
run_loop-Ends_example = run_loop-Ends env plan run refl

run_loop-Closed_example :
    (n : ℕ) × (n ≤ pool env plan)
    × (n ≤ plan.max_attempts)
    × Closed n (run_loop env plan run).0.log (run_loop env plan run).1
run_loop-Closed_example = run_loop-Closed env plan run refl

run_loop-Told_example : Told env plan (run_loop env plan run).1
run_loop-Told_example = run_loop-Told env plan run refl

run_loop-Distinct_example : Distinct (starts (run_loop env plan run).0.log)
run_loop-Distinct_example = run_loop-Distinct env plan run refl (omega arith)

run_loop-Doubling_example : Doubling 10 (pauses (run_loop env plan run).0.log)
run_loop-Doubling_example =
    run_loop-Doubling env plan run refl (λ n most. omega arith) (omega arith, omega arith)

abbrev server : ServerConfig ℕ
server = record {
  bind = "0.0.0.0:8080";
  request_timeout_secs = 5;
  max_retries = 2;
  failure_threshold = 3;
  health_cooldown_secs = 10;
  health_check = none;
  retry_backoff_ms = 10;
  retry_budget_percent = 100;
  retry_budget_window_secs = 10;
  metrics_bind = none;
  overall_timeout_secs = 30;
  rate_limit = none;
  drain_timeout_secs = 30;
  pool_idle_timeout_secs = 90;
  pool_max_idle_per_host = 32;
}

abbrev req : Request sample String
req = record {
  method = "GET";
  path = "/api/users";
  path_and_query = some "/api/users";
  headers = ("host", "example.org") ∷ ("te", "trailers") ∷ [];
  body = "body";
  remote = some "10.0.0.1";
}

abbrev table : Router
table = record { routes = route ∷ [] }

abbrev Ready : Route → World ℕ → Type 0
Ready = HasBalancer

table-Serves : Serves table.routes world
table-Serves r (inl e) =
    subst (λ x. Ready x world) e (rr (record { counter = 1 }), refl, omega arith)
table-Serves r (inr none_left) = absurd none_left

proxy_request-answered_example :
    let (r, result) = proxy_request len (λ ip. ip) env server table world req in
    IsCalm result × ((made : Accesses len world r.world) × AllSubtract len made)
proxy_request-answered_example =
    proxy_request-answered len (λ ip. ip) env server table world req sample-HeaderLaws
      (λ n v. unchanged) table-Serves (omega arith) (refl, refl)

proxy_request-dropped_example :
    let (r, result) = proxy_request len (λ ip. ip) env server table world req in
    All AtPause r.suspended × AtEnd len (λ ip. ip) env r.log result
proxy_request-dropped_example = proxy_request-dropped len (λ ip. ip) env server table world req

-- The same with a least-connections balancer, whose counters are 4 and 2.
abbrev busy : World ℕ
busy = record world { balancers = lc (record { active = 4 ∷ 2 ∷ [] }) ∷ [] }

proxy_request-Counted_example :
    let (r, result) = proxy_request len (λ ip. ip) env server table busy req in
    All (Counted len env 0 1 2) r.suspended × CountedAtEnd len env 0 1 2 r.world result
proxy_request-Counted_example =
    proxy_request-Counted len (λ ip. ip) env server table busy req route 1 2
      (unfold match_route in refl) (record { active = 4 ∷ 2 ∷ [] }, refl, omega arith, refl)
      (omega arith) (λ k m v h. h)

-- A request runs from its last pause to its end, and then the prober asks for an upstream.
abbrev task : Task sample ℕ String
task = record { env = env; server = server; router = table; begun = world; req = req }

abbrev last_pause : World ℕ
last_pause = goes_on sample len (λ ip. ip) task (run_of sample len (λ ip. ip) task).suspended

abbrev probed : World ℕ
probed =
    let w = (run_of sample len (λ ip. ip) task).world in
    record w { health = (is_healthy w.health "http://b" 9).1 }

probed-Reached : Reached sample len (λ ip. ip) last_pause probed
probed-Reached = other (moves task Interleaved.starts ends) (asks _ "http://b" 9)

Reached_sound_example :
    ((routes : List Route) → Serves routes last_pause → Serves routes probed)
    × (IsValid last_pause.health → IsValid probed.health)
    × SameLimits last_pause probed
    × ((t : Task sample ℕ String)
        → HeaderLaws sample
        → t.env.across 0 t.begun ≡ probed
        → ((n : ℕ) (v : World ℕ) → Accesses len v (t.env.across n v))
        → Serves t.router.routes last_pause
        → InReach last_pause
        → Sendable len (λ ip. ip) t.env t.req
        → IsCalm (proxy_request len (λ ip. ip) t.env t.server t.router t.begun t.req).1
          × ((made : Accesses len t.begun (run_of sample len (λ ip. ip) t).world) × AllSubtract len
                made))
Reached_sound_example = Reached_sound sample len (λ ip. ip) last_pause probed probed-Reached

-- A client behind another proxy, with a host and a header that is hop-by-hop.
abbrev came : sample.HeaderMap
came =
    ("host", "example.org")
    ∷ ("te", "trailers")
    ∷ ("x-forwarded-for", "10.0.0.9")
    ∷ ("accept", "*/*")
    ∷ []

normalize-expected_example :
    (out : sample.HeaderMap) × (normalize sample came "id" (some "10.0.0.1") ≡ ok out)
    × ((n : String)
        → is_lower_case n ≡ true
        → sample.get out n ≡ expected sample sample-HeaderLaws came "id" (some "10.0.0.1") n)
normalize-expected_example =
    normalize-expected sample sample-HeaderLaws came "id" (some "10.0.0.1") refl refl

came-chain :
    expected sample sample-HeaderLaws came "id" (some "10.0.0.1") "x-forwarded-for"
    ≡ some "10.0.0.9, 10.0.0.1"
came-chain = refl

came-host :
    expected sample sample-HeaderLaws came "id" (some "10.0.0.1") "x-forwarded-host"
    ≡ some "example.org"
came-host = refl

came-te : expected sample sample-HeaderLaws came "id" (some "10.0.0.1") "te" ≡ none
came-te = refl

stays_on_upstream_iff_example :
    (authority_after "http://"
        (new_uri ("http://" ++ "a") (final_path "/api" (some ("/api" ++ ".evil"))))
      ≡ some "a")
    ↔ (authority ".evil" ≡ "")
stays_on_upstream_iff_example = stays_on_upstream_iff "http://" "a" "/api" ".evil" (refl, tt)
