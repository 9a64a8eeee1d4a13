-- ===== src/Server/Life/Invariant.antt =====
-- What the server of src/server.rs keeps through its life, by reloads and by the prober too.
use Prim.Native.String.{String}
use l7_proxy.Base.{ℕ, ◌≡◌, ◌≤◌, arith, refl, List, [], All, suc, ◌<◌, u32_mod}
use l7_proxy.Base.Float.{Float}
use l7_proxy.Config.{Config}
use l7_proxy.Router.{new}
use l7_proxy.Health.Breaker.{IsValid, new-IsValid}
use l7_proxy.Health.Trace
use l7_proxy.RetryBudget
use l7_proxy.RetryBudget.{instant_reach_secs}
use l7_proxy.Reload.{AppState, apply_config}
use l7_proxy.Reload.Ready.{Servable, apply_config-IsReady}
use l7_proxy.Reload.File.{Loaded, loaded, failed, applied}
use l7_proxy.Proxy.Serving.{Serves}
use l7_proxy.Proxy.Access.{SameLimits, SameLimits-trans, InReach}
use l7_proxy.Server.{State, build_state, world}

-- The balancers of the router in force are in the store and answer.
abbrev pub IsAlive : {F : Type 0} → State F → Type 0
IsAlive s = Serves s.app.router.routes (world s)

-- What the server keeps of the configuration that it was started with, whatever is reloaded.
pub record Limits {F : Type 0} (start s : State F) : Type 0 where
  pub shared : SameLimits (world start) (world s)
  pub capacity : s.rate_limiter.capacity ≡ start.rate_limiter.capacity
  pub refill_rate : s.rate_limiter.refill_rate ≡ start.rate_limiter.refill_rate
  pub enabled : s.rate_limiter.enabled ≡ start.rate_limiter.enabled

-- It answers, its health counters are in range, its settings are those of the start, and the window
-- of its retry budget is in reach of the clock.
pub record IsSound {F : Type 0} (start s : State F) : Type 0 where
  pub alive : IsAlive s
  pub health : IsValid s.health
  pub limits : Limits start s
  pub reach : InReach (world s)

module _ {F : Type 0} (hash : String → ℕ) where
  reload-IsAlive :
      (s : State F) (l : Loaded (Config F))
      → ((c : Config F) → l ≡ loaded c → All Servable c.routes)
      → IsAlive s
      → IsAlive (record s { app = (applied hash s.app l).1 })
  unfolding applied
  reload-IsAlive s (failed e) h alive = alive
  reload-IsAlive s (loaded c) h alive = λ r listed.
      let (source, b, _, _, _, e, ready) = apply_config-IsReady hash s.app c (h c refl) r listed in
      (b, e, ready)

  -- What `build_proxy` builds is what a reload would build over no router at all.
  build_state-IsAlive :
      ⦃f : Float F⦄ (c : Config F) → All Servable c.routes → IsAlive (build_state hash c)
  unfolding build_state apply_config
  build_state-IsAlive c h = λ r listed.
      let none_yet : AppState F = record { config = c; router = new []; balancers = [] } in
      let (source, b, _, _, _, e, ready) = apply_config-IsReady hash none_yet c h r listed in
      (b, e, ready)

  Limits-refl : (s : State F) → Limits s s
  Limits-refl s = record {
    shared = record { health = (refl, refl); percent = refl; window = refl };
    capacity = refl;
    refill_rate = refl;
    enabled = refl;
  }

  pub build_state-IsSound :
      ⦃f : Float F⦄ (c : Config F)
      → All Servable c.routes
      → suc c.server.failure_threshold < u32_mod
      → c.server.retry_budget_window_secs ≤ instant_reach_secs
      → IsSound (build_state hash c) (build_state hash c)
  build_state-IsSound c servable small window = record {
    alive = build_state-IsAlive c servable;
    health = unfold build_state in new-IsValid c.server.failure_threshold _ small;
    limits = Limits-refl (build_state hash c);
    reach = unfold build_state in unfold RetryBudget.new in omega arith;
  }

  pub reload-IsSound :
      (start s : State F) (l : Loaded (Config F))
      → ((c : Config F) → l ≡ loaded c → All Servable c.routes)
      → IsSound start s
      → IsSound start (record s { app = (applied hash s.app l).1 })
  reload-IsSound start s l h sound = record {
    alive = reload-IsAlive s l h sound.alive;
    health = sound.health;
    limits = record {
      shared = record {
        health = sound.limits.shared.health;
        percent = sound.limits.shared.percent;
        window = sound.limits.shared.window;
      };
      capacity = sound.limits.capacity;
      refill_rate = sound.limits.refill_rate;
      enabled = sound.limits.enabled;
    };
    reach = sound.reach;
  }

  pub notes-IsSound :
      (start s : State F) (notes : List Trace.Event)
      → IsSound start s
      → IsSound start (record s { health = Trace.run s.health notes })
  notes-IsSound start s notes sound = record {
    alive = sound.alive;
    health = Trace.run-IsValid s.health notes sound.health;
    limits = record {
      shared = SameLimits-trans sound.limits.shared (record {
        health = Trace.run-SameSettings s.health notes;
        percent = refl;
        window = refl;
      });
      capacity = sound.limits.capacity;
      refill_rate = sound.limits.refill_rate;
      enabled = sound.limits.enabled;
    };
    reach = sound.reach;
  }
