-- ===== src/Server/ForTest.antt =====
-- The entry points of src/server.rs for tests: the configuration of `start_proxy_for_test`, and how
-- the servers of `start_proxy_with_config` and `start_proxy_with_shutdown` end.
use mathlib.Core.Option
use l7_proxy.Base.{
  ℕ, suc, ◌+◌, ◌≤◌, ◌<◌, ◌≡◌, refl, [], ◌∷◌, Bool, Option, none, some, arith, All, u32_mod,
  from_secs, leb, if◌then◌else◌,
}
use l7_proxy.Base.Float.{Float}
use l7_proxy.Config.{Config, round_robin}
use l7_proxy.Reload.Ready.{Servable}
use l7_proxy.Server.Drain.{Exit, finished, start_server, select, deadline, start_server-ends}

module _ {F : Type 0} ⦃f : Float F⦄ where
  -- The configuration of `start_proxy_for_test`.
  abbrev pub for_test : Config F
  for_test = record {
    server = record {
      bind = "127.0.0.1:8080";
      request_timeout_secs = 2;
      max_retries = 5;
      failure_threshold = 3;
      health_cooldown_secs = 30;
      health_check = none;
      retry_backoff_ms = 10;
      retry_budget_percent = f.of_int 20;
      retry_budget_window_secs = 10;
      metrics_bind = none;
      overall_timeout_secs = 30;
      rate_limit = none;
      drain_timeout_secs = 30;
      pool_idle_timeout_secs = 90;
      pool_max_idle_per_host = 32;
    };
    routes =
        record {
          prefix = "/";
          upstream = "http://127.0.0.1:9001" ∷ "http://127.0.0.1:9002" ∷ [];
          strategy = round_robin;
          weights = none;
        }
        ∷ [];
  }

-- Its routes can be served, and its failure threshold is in range.
for_test-Servable :
    (F : Type 0) ⦃f : Float F⦄
    → All Servable (for_test {F = F}).routes
      × (suc (for_test {F = F}).server.failure_threshold < u32_mod)
for_test-Servable F = (((omega arith, tt), tt), omega arith)

-- `shutdown_rx.await.ok()`: the sender sends, or is dropped, whichever comes first.
unfoldable pub shutdown_rx : Option ℕ → Option ℕ → Option ℕ
shutdown_rx none dropped = dropped
shutdown_rx (some sent) none = some sent
shutdown_rx (some sent) (some dropped) = if leb sent dropped then some sent else some dropped

module _ {F : Type 0} (c : Config F) (toss : Bool) where
  -- `start_proxy_with_config`: the signal never comes.
  unfoldable pub start_proxy_with_config : Option (ℕ × Bool) → Option (ℕ × Exit)
  start_proxy_with_config ended = start_server c.server toss ended none

  -- `start_proxy_with_shutdown`: the signal is the test's.
  unfoldable pub start_proxy_with_shutdown :
      Option (ℕ × Bool) → Option ℕ → Option ℕ → Option (ℕ × Exit)
  start_proxy_with_shutdown ended sent dropped =
      start_server c.server toss ended (shutdown_rx sent dropped)

  -- Without a signal the server ends only with hyper's own server.
  pub start_proxy_with_config-ends :
      (ended : Option (ℕ × Bool))
      → start_proxy_with_config ended ≡ Option.map (λ e. (e.0, finished e.1)) ended
  unfolding start_proxy_with_config start_server deadline select
  start_proxy_with_config-ends none = refl
  start_proxy_with_config-ends (some (at, fine)) = refl

  -- A test that drops its sender without sending ends the server as one that sends: by the drain
  -- timeout after that.
  pub start_proxy_with_shutdown-dropped :
      (ended : Option (ℕ × Bool)) (at : ℕ)
      → (end : ℕ) × (exit : Exit) × (start_proxy_with_shutdown ended none (some at)
          ≡ some (end, exit))
        × (end ≤ at + from_secs c.server.drain_timeout_secs)
  unfolding start_proxy_with_shutdown shutdown_rx
  start_proxy_with_shutdown-dropped ended at =
      let (end, exit, e, le, _) = start_server-ends c.server toss ended at in (end, exit, e, le)
