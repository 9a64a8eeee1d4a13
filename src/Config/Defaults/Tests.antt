-- ===== src/Config/Defaults/Tests.antt =====
-- A file that gives only what src/config.rs requires, and the configuration that is made of it.
use l7_proxy.Base.{ℕ, ◌≡◌, refl, [], ◌∷◌, none, some}
use l7_proxy.Base.Float.{whole}
use l7_proxy.Config.Defaults.{Given, fill, fill_server}

abbrev minimal : Given ℕ
minimal = record {
  server = record {
    bind = "0.0.0.0:8080";
    request_timeout_secs = 5;
    max_retries = 2;
    failure_threshold = none;
    health_cooldown_secs = none;
    health_check = none;
    retry_backoff_ms = none;
    retry_budget_percent = none;
    retry_budget_window_secs = none;
    metrics_bind = none;
    overall_timeout_secs = some 10;
    rate_limit = none;
    drain_timeout_secs = none;
    pool_idle_timeout_secs = none;
    pool_max_idle_per_host = none;
  };
  routes =
      record { prefix = "/"; upstream = "http://a" ∷ []; strategy = none; weights = none } ∷ [];
}

fill-minimal : (fill minimal).server.overall_timeout_secs ≡ 10
unfolding fill fill_server
fill-minimal = refl

fill-minimal_backoff : (fill minimal).server.retry_backoff_ms ≡ 100
unfolding fill fill_server
fill-minimal_backoff = refl
