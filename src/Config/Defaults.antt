-- ===== src/Config/Defaults.antt =====
-- src/config.rs: the defaults that serde puts in for omitted fields. A file is given by the fields
-- that it holds: a field with a default is an `Option`, as are those that the source declares so.
mod Tests
use Prim.Native.String.{String}
use l7_proxy.Base.{ℕ, ◌≡◌, refl, ap, ap₂, List, [], ◌∷◌, Option, none, some, map}
use l7_proxy.Base.Float.{Float}
use l7_proxy.Config.{
  BalancerStrategy, round_robin, RouteConfig, HealthCheckConfig, RateLimitConfig, ServerConfig,
  Config,
}

abbrev pub default_failure_threshold : ℕ
default_failure_threshold = 3

abbrev pub default_health_cooldown_secs : ℕ
default_health_cooldown_secs = 30

abbrev pub default_health_check_path : String
default_health_check_path = "/health"

abbrev pub default_health_check_interval : ℕ
default_health_check_interval = 10

abbrev pub default_health_check_timeout : ℕ
default_health_check_timeout = 3

abbrev pub default_retry_backoff_ms : ℕ
default_retry_backoff_ms = 100

-- `20.0`
abbrev pub default_retry_budget_percent : {F : Type 0} ⦃f : Float F⦄ → F
default_retry_budget_percent ⦃f⦄ = f.of_int 20

abbrev pub default_retry_budget_window_secs : ℕ
default_retry_budget_window_secs = 10

abbrev pub default_overall_timeout_secs : ℕ
default_overall_timeout_secs = 30

abbrev pub default_drain_timeout_secs : ℕ
default_drain_timeout_secs = 30

abbrev pub default_pool_idle_timeout_secs : ℕ
default_pool_idle_timeout_secs = 90

abbrev pub default_pool_max_idle_per_host : ℕ
default_pool_max_idle_per_host = 32

-- `#[serde(default = "..")]`
abbrev pub or_default {ℓ} : {A : Type ℓ} → Option A → A → A
or_default none d = d
or_default (some a) d = a

-- The fields of a `HealthCheckConfig` in the file.
pub record GivenHealthCheck : Type 0 where
  pub path : Option String
  pub interval_secs : Option ℕ
  pub timeout_secs : Option ℕ

pub record GivenServer (F : Type 0) : Type 0 where
  pub bind : String
  pub request_timeout_secs : ℕ
  pub max_retries : ℕ
  pub failure_threshold : Option ℕ
  pub health_cooldown_secs : Option ℕ
  pub health_check : Option GivenHealthCheck
  pub retry_backoff_ms : Option ℕ
  pub retry_budget_percent : Option F
  pub retry_budget_window_secs : Option ℕ
  pub metrics_bind : Option String
  pub overall_timeout_secs : Option ℕ
  pub rate_limit : Option (RateLimitConfig F)
  pub drain_timeout_secs : Option ℕ
  pub pool_idle_timeout_secs : Option ℕ
  pub pool_max_idle_per_host : Option ℕ

pub record GivenRoute : Type 0 where
  pub prefix : String
  pub upstream : List String
  pub strategy : Option BalancerStrategy
  pub weights : Option (List ℕ)

pub record Given (F : Type 0) : Type 0 where
  pub server : GivenServer F
  pub routes : List GivenRoute

unfoldable pub fill_health_check : GivenHealthCheck → HealthCheckConfig
fill_health_check g = record {
  path = or_default g.path default_health_check_path;
  interval_secs = or_default g.interval_secs default_health_check_interval;
  timeout_secs = or_default g.timeout_secs default_health_check_timeout;
}

abbrev pub fill_checks : Option GivenHealthCheck → Option HealthCheckConfig
fill_checks none = none
fill_checks (some g) = some (fill_health_check g)

unfoldable pub fill_server : {F : Type 0} ⦃f : Float F⦄ → GivenServer F → ServerConfig F
fill_server g = record {
  bind = g.bind;
  request_timeout_secs = g.request_timeout_secs;
  max_retries = g.max_retries;
  failure_threshold = or_default g.failure_threshold default_failure_threshold;
  health_cooldown_secs = or_default g.health_cooldown_secs default_health_cooldown_secs;
  health_check = fill_checks g.health_check;
  retry_backoff_ms = or_default g.retry_backoff_ms default_retry_backoff_ms;
  retry_budget_percent = or_default g.retry_budget_percent default_retry_budget_percent;
  retry_budget_window_secs = or_default g.retry_budget_window_secs default_retry_budget_window_secs;
  metrics_bind = g.metrics_bind;
  overall_timeout_secs = or_default g.overall_timeout_secs default_overall_timeout_secs;
  rate_limit = g.rate_limit;
  drain_timeout_secs = or_default g.drain_timeout_secs default_drain_timeout_secs;
  pool_idle_timeout_secs = or_default g.pool_idle_timeout_secs default_pool_idle_timeout_secs;
  pool_max_idle_per_host = or_default g.pool_max_idle_per_host default_pool_max_idle_per_host;
}

-- `#[derive(Default)]` and `#[default]` make `RoundRobin` the default strategy.
unfoldable pub fill_route : GivenRoute → RouteConfig
fill_route g = record {
  prefix = g.prefix;
  upstream = g.upstream;
  strategy = or_default g.strategy round_robin;
  weights = g.weights;
}

unfoldable pub fill_routes : List GivenRoute → List RouteConfig
fill_routes [] = []
fill_routes (g ∷ gs) = fill_route g ∷ fill_routes gs

unfoldable pub fill : {F : Type 0} ⦃f : Float F⦄ → Given F → Config F
fill g = record { server = fill_server g.server; routes = fill_routes g.routes }
