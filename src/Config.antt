-- ===== src/Config.antt =====
-- src/config.rs: the configuration that `serde` fills in, with the defaults of omitted fields.
-- `F` is the type of the floating-point settings.
pub mod Defaults
use Prim.Native.String.{String}
use l7_proxy.Base.{ℕ, List, Option}

pub data BalancerStrategy : Type 0 where
  round_robin least_connections weighted_round_robin consistent_hash : BalancerStrategy

pub record RouteConfig : Type 0 where
  pub prefix : String
  pub upstream : List String
  pub strategy : BalancerStrategy
  pub weights : Option (List ℕ)

pub record HealthCheckConfig : Type 0 where
  pub path : String
  pub interval_secs : ℕ
  pub timeout_secs : ℕ

pub record RateLimitConfig (F : Type 0) : Type 0 where
  pub requests_per_second : F
  pub burst_size : ℕ

pub record ServerConfig (F : Type 0) : Type 0 where
  pub bind : String
  pub request_timeout_secs : ℕ
  pub max_retries : ℕ
  pub failure_threshold : ℕ
  pub health_cooldown_secs : ℕ
  pub health_check : Option HealthCheckConfig
  pub retry_backoff_ms : ℕ
  pub retry_budget_percent : F
  pub retry_budget_window_secs : ℕ
  pub metrics_bind : Option String
  pub overall_timeout_secs : ℕ
  pub rate_limit : Option (RateLimitConfig F)
  pub drain_timeout_secs : ℕ
  pub pool_idle_timeout_secs : ℕ
  pub pool_max_idle_per_host : ℕ

pub record Config (F : Type 0) : Type 0 where
  pub server : ServerConfig F
  pub routes : List RouteConfig
