-- ===== src/Server/Tests.antt =====
-- A small server: its start, a few events of its life, and its end.
use Prim.Native.String.{String, len}
use l7_proxy.Base.{
  ℕ, ◌+◌, ◌≤◌, ◌≡◌, refl, subst, [], ◌∷◌, List, true, Option, none, some, map, arith, All,
}
use l7_proxy.Base.Float.{whole}
use l7_proxy.Http.{broken}
use l7_proxy.Http.Sample.{sample, sample-HeaderLaws}
use l7_proxy.Config.{RouteConfig, ServerConfig, Config, least_connections}
use l7_proxy.RateLimiter.{IpAddr}
use l7_proxy.RetryBudget.{has_cutoff, allow_retry}
use l7_proxy.Proxy.Access.{then_access, unchanged, retries}
use l7_proxy.Reload.Ready.{Servable}
use l7_proxy.Reload.File.{loaded, load}
use l7_proxy.Server.{build_state}
use l7_proxy.Server.Life.{Visit, Event, visited, abandoned, signalled, probed, serve_all}
use l7_proxy.Server.Life.Invariant.{IsSound}
use l7_proxy.Server.Life.Follows.{IsFair}
use l7_proxy.Server.Life.Sound.{IsAnswered, serve_all-build_state}
use l7_proxy.Server.Drain.{Exit, finished, start_server, CameTo, last_of, start_server-ends}
use l7_proxy.Server.Drain.Requests.{told_at, start_server-serve}
use l7_proxy.Middleware.Tokio.Sample.{tokio}
use l7_proxy.Server.Start.{System, main}
use l7_proxy.Server.Start.Explained.{Explains, main-Explains}

abbrev server : ServerConfig ℕ
server = record {
  bind = "127.0.0.1:8080";
  request_timeout_secs = 5;
  max_retries = 2;
  failure_threshold = 3;
  health_cooldown_secs = 30;
  health_check = none;
  retry_backoff_ms = 100;
  retry_budget_percent = 20;
  retry_budget_window_secs = 10;
  metrics_bind = some "127.0.0.1:9090";
  overall_timeout_secs = 20;
  rate_limit = some (record { requests_per_second = 5; burst_size = 10 });
  drain_timeout_secs = 30;
  pool_idle_timeout_secs = 90;
  pool_max_idle_per_host = 32;
}

abbrev backend : RouteConfig
backend = record {
  prefix = "/";
  upstream = "http://a" ∷ "http://b" ∷ [];
  strategy = least_connections;
  weights = none;
}

abbrev config : Config ℕ
config = record { server = server; routes = backend ∷ [] }

abbrev parse : String → Option (Config ℕ)
parse text = some config

config-Servable : All Servable config.routes
config-Servable = ((omega arith, tt), tt)

abbrev visitor : Visit sample ℕ
visitor = record {
  env = record {
    now = λ n. n;
    reply = λ n req. broken;
    random = λ n most. 0;
    across = λ n w. record w { budget = (allow_retry w.budget 4 5).1 };
    woken = λ n. n + 30_000_000_000;
    uuid = "id";
    buffered = some "body";
  };
  remote_ip = IpAddr.v4 7;
  swept = 1;
  made = 2;
  now = 3;
  begun = 3;
  others = λ w. w;
  req = record {
    method = "GET";
    path = "/users";
    path_and_query = none;
    headers = [];
    body = "";
    remote = none;
  };
}

abbrev ip_text : IpAddr → String
ip_text ip = "10.0.0.7"

visitor-IsFair : IsFair len ip_text sample-HeaderLaws visitor
visitor-IsFair = (λ n w. then_access unchanged (retries w 4 5), λ w. unchanged, (refl, refl))

abbrev events : List (Event sample ℕ)
events =
    visited visitor
    ∷ abandoned 7 visitor
    ∷ signalled (some "routes: []")
    ∷ visited visitor
    ∷ probed []
    ∷ []

loaded-Servable : (c : Config ℕ) → load parse (some "routes: []") ≡ loaded c → All Servable c.routes
unfolding load
loaded-Servable c e =
    let same : config ≡ c = cc in subst (λ d. All Servable d.routes) same config-Servable

serve_all-build_state_example :
    let (replies, end) =
      serve_all len ip_text parse 20_000_000_000 (build_state len config) events in
    All (IsAnswered 20_000_000_000) replies
    × IsSound (build_state len config) end
    × ((now : ℕ) → has_cutoff end.retry_budget now ≡ true)
serve_all-build_state_example =
    serve_all-build_state len ip_text sample-HeaderLaws parse config events config-Servable
      (omega arith) (omega arith)
      (visitor-IsFair, (visitor-IsFair, (loaded-Servable, (visitor-IsFair, (tt, tt)))))

start_server-ends_example :
    (end : ℕ) × (exit : Exit) × (start_server server true (some (50_000_000_000, true)) (some 7)
      ≡ some (end, exit))
    × (end ≤ 7 + 30_000_000_000)
    × CameTo (some (50_000_000_000, true)) (7 + 30_000_000_000) end exit
start_server-ends_example = start_server-ends server true (some (50_000_000_000, true)) 7

-- At the signal a request is under way whose time runs out.
start_server-serve_example :
    let ended =
      last_of 7
        (map (told_at len ip_text 20_000_000_000) ((visitor, build_state len config) ∷ [])) in
    start_server server true (some (ended, true)) (some 7) ≡ some (ended, finished true)
start_server-serve_example =
    start_server-serve len ip_text server true 7 ((visitor, build_state len config) ∷ [])
      (omega arith, tt) (omega arith)

abbrev system : System String ℕ
system = record {
  content = some "server: {}";
  parse = parse;
  parse_addr = λ text. some text;
  binds = λ bound addr. true;
}

main-Explains_example : Explains len system (main len system)
main-Explains_example = main-Explains len system
