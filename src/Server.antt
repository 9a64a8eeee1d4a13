-- ===== src/Server.antt =====
-- `build_proxy` of src/server.rs and the same lines of src/main.rs: the state that the server starts
-- with; and the parts of `AppState` in src/state.rs that change. The client and the metrics are
-- outside.
pub mod Life
pub mod Drain
pub mod Start
pub mod ForTest
mod Tests
use Prim.Native.String.{String}
use l7_proxy.Base.{ℕ, [], Option, none, some, from_secs}
use l7_proxy.Base.Float.{Float}
use l7_proxy.Config.{Config, RateLimitConfig}
use l7_proxy.Health
use l7_proxy.Health.{HealthTracker}
use l7_proxy.RetryBudget
use l7_proxy.RetryBudget.{RetryBudget}
use l7_proxy.RateLimiter
use l7_proxy.RateLimiter.{RateLimiter}
use l7_proxy.Router
use l7_proxy.Reload.{AppState, build_routes, build_balancers}
use l7_proxy.Proxy.World.{World}

-- What `AppState` holds behind its locks, atomics and swaps.
pub record State (F : Type 0) : Type 0 where
  pub app : AppState F
  pub health : HealthTracker
  pub retry_budget : RetryBudget F
  pub rate_limiter : RateLimiter F

module _ {F : Type 0} ⦃f : Float F⦄ where
  -- The `match` on `config.server.rate_limit`.
  unfoldable pub build_rate_limiter : Option (RateLimitConfig F) → RateLimiter F
  build_rate_limiter none = RateLimiter.disabled
  build_rate_limiter (some rl) = RateLimiter.new rl.requests_per_second rl.burst_size

  unfoldable pub build_state : (String → ℕ) → Config F → State F
  build_state hash c = record {
    app = record {
      config = c;
      router = Router.new (build_routes 0 c.routes);
      balancers = build_balancers hash c.routes;
    };
    health = Health.new c.server.failure_threshold (from_secs c.server.health_cooldown_secs);
    retry_budget = RetryBudget.new c.server.retry_budget_percent c.server.retry_budget_window_secs;
    rate_limiter = build_rate_limiter c.server.rate_limit;
  }

module _ {F : Type 0} where
  -- The part that requests share, and the state with that part written back.
  abbrev pub world : State F → World F
  world s = record { health = s.health; budget = s.retry_budget; balancers = s.app.balancers }

  abbrev pub with_world : State F → World F → State F
  with_world s w = record s {
    app = record s.app { balancers = w.balancers };
    health = w.health;
    retry_budget = w.budget;
  }
