-- ===== src/Server/Start.antt =====
-- src/main.rs: the steps of start-up, each of which may stop the program. What the file holds, serde,
-- the parsing of socket addresses and binding them are parameters.
pub mod Described
pub mod Explained
use Prim.Native.String.{String}
use l7_proxy.Base.{
  ℕ, ◌≡◌, refl, sym, subst, inl, inr, List, [], ◌∷◌, Bool, true, false, Option, none, some,
  if◌then◌else◌, Bool-cases,
}
use l7_proxy.Base.Float.{Float}
use l7_proxy.Config.{HealthCheckConfig, Config}
use l7_proxy.HealthCheck.{spawn_active_health_checker}
use l7_proxy.Reload.File.{LoadError, Loaded, loaded, failed, load}
use l7_proxy.Server.{State, build_state}

-- What `main` asks of the system.
pub record System (A F : Type 0) : Type 0 where
  pub content : Option String
  pub parse : String → Option (Config F)
  pub parse_addr : String → Option A
  -- Whether an address can be bound, when some are bound already.
  pub binds : List A → A → Bool

pub data Stop : Type 0 where
  not_loaded : LoadError → Stop
  bad_address not_bound bad_metrics_address metrics_not_bound : Stop

pub data Task (A : Type 0) : Type 0 where
  health_checker : HealthCheckConfig → List String → Task A
  config_reloader : Task A
  metrics_server : A → Task A

-- How `main` goes: it returns an error, or it serves; with the tasks that it has spawned, the latest
-- first.
pub data Begin (A F : Type 0) : Type 0 where
  stops : Stop → List (Task A) → Begin A F
  serves : State F → A → List (Task A) → Begin A F

unfoldable pub checkers : {A : Type 0} → Option (HealthCheckConfig × List String) → List (Task A)
checkers none = []
checkers (some (config, upstreams)) = health_checker config upstreams ∷ []

module _ {A F : Type 0} where
  -- The tasks that are spawned when the listener is bound.
  unfoldable pub background : Config F → List (Task A)
  background c = config_reloader ∷ checkers (spawn_active_health_checker c)

module _ {A F : Type 0} ⦃f : Float F⦄ (hash : String → ℕ) (system : System A F) where
  -- The `bind` of the metrics server's address.
  unfoldable pub bind_metrics : Config F → A → Option A → Begin A F
  bind_metrics c addr none = stops bad_metrics_address (background c)
  bind_metrics c addr (some metrics) =
      if system.binds (addr ∷ []) metrics
      then serves (build_state hash c) addr (metrics_server metrics ∷ background c)
      else stops metrics_not_bound (background c)

  -- From the spawned tasks on.
  unfoldable pub start_metrics : Config F → A → Option String → Begin A F
  start_metrics c addr none = serves (build_state hash c) addr (background c)
  start_metrics c addr (some metrics_bind) = bind_metrics c addr (system.parse_addr metrics_bind)

  -- From the parsed address on.
  unfoldable pub bind_proxy : Config F → Option A → Begin A F
  bind_proxy c none = stops bad_address []
  bind_proxy c (some addr) =
      if system.binds [] addr
      then start_metrics c addr c.server.metrics_bind
      else stops not_bound []

  -- From the configuration on.
  unfoldable pub start_loaded : Loaded (Config F) → Begin A F
  start_loaded (failed e) = stops (not_loaded e) []
  start_loaded (loaded c) = bind_proxy c (system.parse_addr c.server.bind)

  unfoldable pub main : Begin A F
  main = start_loaded (load system.parse system.content)
