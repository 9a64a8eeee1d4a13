-- ===== src/Reload/Tests.antt =====
-- A configuration applied over a running one, and examples of what is proved of it.
use Prim.Native.String.{String, len}
use l7_proxy.Base.{
  ℕ, ◌≡◌, refl, inl, List, [], ◌∷◌, Option, none, some, arith, get_elem?, In, if◌then◌else◌, ◌==◌,
  string_key,
}
use l7_proxy.Config.{RouteConfig, ServerConfig, Config, weighted_round_robin, round_robin}
use l7_proxy.Balancer.{LoadBalancer, rr}
use l7_proxy.Balancer.Ready.{IsReady}
use l7_proxy.Balancer.Weighted
use l7_proxy.Router.{new}
use l7_proxy.Reload.{AppState, build_route, apply_config, build_routes}
use l7_proxy.Reload.Ready.{apply_config-IsReady}
use l7_proxy.Reload.File

abbrev weighted : RouteConfig
weighted = record {
  prefix = "/api";
  upstream = "http://a" ∷ "http://b" ∷ [];
  strategy = weighted_round_robin;
  weights = some (3 ∷ 1 ∷ []);
}

abbrev plain : RouteConfig
plain = record { prefix = "/"; upstream = "http://c" ∷ []; strategy = round_robin; weights = none }

abbrev server : ServerConfig ℕ
server = record {
  bind = "127.0.0.1:8080";
  request_timeout_secs = 5;
  max_retries = 2;
  failure_threshold = 3;
  health_cooldown_secs = 30;
  health_check = none;
  retry_backoff_ms = 100;
  retry_budget_percent = 20;
  retry_budget_window_secs = 10;
  metrics_bind = none;
  overall_timeout_secs = 30;
  rate_limit = none;
  drain_timeout_secs = 30;
  pool_idle_timeout_secs = 90;
  pool_max_idle_per_host = 32;
}

abbrev running : AppState ℕ
running = record {
  config = record { server = server; routes = plain ∷ [] };
  router = record { routes = build_route 0 plain ∷ [] };
  balancers = rr (record { counter = 6 }) ∷ [];
}

abbrev latest : Config ℕ
latest = record { server = server; routes = plain ∷ weighted ∷ [] }

apply_config-IsReady_example :
    (source : RouteConfig) × (b : LoadBalancer) × In source latest.routes
    × ((build_route 1 plain).prefix ≡ source.prefix)
    × ((build_route 1 plain).upstreams ≡ source.upstream)
    × (get_elem? (apply_config len running latest).balancers 1 ≡ some b)
    × IsReady 1 b
apply_config-IsReady_example =
    apply_config-IsReady len running latest
      ((omega arith, tt), ((omega arith, unfold Weighted.total_weight in omega arith), tt))
      (build_route 1 plain) (unfold apply_config build_routes new in inl refl)

-- A file that holds a configuration only if it is not empty.
abbrev parse : String → Option (Config ℕ)
parse text = if text == "" then none else some latest

abbrev contents : List (Option String)
contents = some "routes: []" ∷ some "" ∷ none ∷ []

reload_loop-latest_example :
    ((File.reload_loop parse len running contents).config
      ≡ File.latest parse running.config contents)
    × File.Lists
        (File.reload_loop parse len running contents).router.routes
        (File.reload_loop parse len running contents).config.routes
    × ((address : ℕ) (b : LoadBalancer)
        → get_elem? running.balancers address ≡ some b
        → get_elem? (File.reload_loop parse len running contents).balancers address ≡ some b)
reload_loop-latest_example = File.reload_loop-latest parse len running contents (refl, refl, tt)
