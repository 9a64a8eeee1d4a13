-- ===== src/Server/Start/Explained.antt =====
-- How each end of `main` of src/main.rs comes about, and with which state and tasks.
use Prim.Native.String.{String}
use l7_proxy.Base.{
  ℕ, ◌≡◌, refl, sym, subst, inl, inr, List, [], ◌∷◌, true, false, Option, none, some, Bool-cases,
  Option-cases, In,
}
use l7_proxy.Base.Float.{Float}
use l7_proxy.Config.{RouteConfig, HealthCheckConfig, Config}
use l7_proxy.HealthCheck.{collect, spawn_active_health_checker}
use l7_proxy.HealthCheck.Once.{Once, IsConfigured, collect-Once}
use l7_proxy.Reload.File.{Loaded, loaded, failed, load}
use l7_proxy.Server.Start.Described.{Described, build_state-Described}
use l7_proxy.Server.Start.{
  System, not_loaded, bad_address, not_bound, bad_metrics_address, metrics_not_bound, Task,
  health_checker, config_reloader, metrics_server, Begin, stops, serves, checkers, background,
  bind_metrics, start_metrics, bind_proxy, start_loaded, main,
}

-- The tasks beside the reloader: none, or a prober with its settings and each configured upstream once.
abbrev pub Probers :
    {A : Type 0} → Option HealthCheckConfig → List RouteConfig → List (Task A) → Type 0
Probers none routes tasks = tasks ≡ []
Probers (some config) routes tasks =
    (upstreams : List String) × (tasks ≡ health_checker config upstreams ∷ [])
    × ((w : String)
        → (IsConfigured w routes → Once w upstreams) × (In w upstreams → IsConfigured w routes))

module _ {A F : Type 0} where
  -- The reloader, and what the configuration says of a prober.
  abbrev pub Watched : Config F → List (Task A) → Type 0
  Watched c tasks =
      (probers : List (Task A)) × (tasks ≡ config_reloader ∷ probers)
      × Probers c.server.health_check c.routes probers

  background-Watched : (c : Config F) → Watched c (background c)
  unfolding background spawn_active_health_checker checkers
  background-Watched c = elim (Option-cases c.server.health_check) [
    | inl off ↦ ([], rw (background, off) refl, rw off refl)
    | inr (config, on) ↦ (
      health_checker config (collect [] c.routes) ∷ [],
      rw (background, on) refl,
      rw on (collect [] c.routes, refl, collect-Once c.routes),
    )
  ]

module _ {A F : Type 0} ⦃f : Float F⦄ (hash : String → ℕ) (system : System A F) where
  -- The configuration, and the address that it gives, when the proxy's listener is bound.
  abbrev pub Bound : Config F → A → Type 0
  Bound c addr =
      (load system.parse system.content ≡ loaded c)
      × (system.parse_addr c.server.bind ≡ some addr)
      × (system.binds [] addr ≡ true)

  -- What has happened when the metrics server, if there is one, is up.
  abbrev pub MetricsUp : Config F → A → Option String → List (Task A) → Type 0
  MetricsUp c addr none tasks = Watched c tasks
  MetricsUp c addr (some metrics_bind) tasks =
      (metrics : A) × (system.parse_addr metrics_bind ≡ some metrics)
      × (system.binds (addr ∷ []) metrics ≡ true)
      × ((others : List (Task A)) × (tasks ≡ metrics_server metrics ∷ others) × Watched c others)

  -- How each end of `main` comes about.
  abbrev pub Explains : Begin A F → Type 0
  Explains (serves s addr tasks) =
      (c : Config F) × Bound c addr
      × Described hash c s
      × MetricsUp c addr c.server.metrics_bind tasks
  Explains (stops (not_loaded e) tasks) =
      (load system.parse system.content ≡ failed e) × (tasks ≡ [])
  Explains (stops bad_address tasks) =
      (c : Config F) × (load system.parse system.content ≡ loaded c)
      × (system.parse_addr c.server.bind ≡ none)
      × (tasks ≡ [])
  Explains (stops not_bound tasks) =
      (c : Config F) × (addr : A) × (load system.parse system.content ≡ loaded c)
      × (system.parse_addr c.server.bind ≡ some addr)
      × (system.binds [] addr ≡ false)
      × (tasks ≡ [])
  Explains (stops bad_metrics_address tasks) =
      (c : Config F) × (addr : A) × (text : String) × Bound c addr
      × (c.server.metrics_bind ≡ some text)
      × (system.parse_addr text ≡ none)
      × Watched c tasks
  Explains (stops metrics_not_bound tasks) =
      (c : Config F) × (addr : A) × (text : String) × (metrics : A) × Bound c addr
      × (c.server.metrics_bind ≡ some text)
      × (system.parse_addr text ≡ some metrics)
      × (system.binds (addr ∷ []) metrics ≡ false)
      × Watched c tasks

  bind_metrics-Explains :
      (c : Config F) (addr : A) (text : String) (parsed : Option A)
      → Bound c addr
      → c.server.metrics_bind ≡ some text
      → system.parse_addr text ≡ parsed
      → Explains (bind_metrics hash system c addr parsed)
  unfolding bind_metrics
  bind_metrics-Explains c addr text none bound given e =
      (c, addr, text, bound, given, e, background-Watched c)
  bind_metrics-Explains c addr text (some metrics) bound given e =
      elim (Bool-cases (system.binds (addr ∷ []) metrics)) [
        | inl up ↦ rw up (
          c,
          bound,
          build_state-Described hash c,
          subst (λ o. MetricsUp c addr o (metrics_server metrics ∷ background c)) (sym given)
              (metrics, e, up, (background c, refl, background-Watched c)),
        )
        | inr taken ↦
            rw taken (c, addr, text, metrics, bound, given, e, taken, background-Watched c)
      ]

  start_metrics-Explains :
      (c : Config F) (addr : A) (given : Option String)
      → Bound c addr
      → c.server.metrics_bind ≡ given
      → Explains (start_metrics hash system c addr given)
  unfolding start_metrics
  start_metrics-Explains c addr none bound e = (
    c,
    bound,
    build_state-Described hash c,
    subst (λ o. MetricsUp c addr o (background c)) (sym e) (background-Watched c),
  )
  start_metrics-Explains c addr (some text) bound e =
      bind_metrics-Explains c addr text (system.parse_addr text) bound e refl

  bind_proxy-Explains :
      (c : Config F) (parsed : Option A)
      → load system.parse system.content ≡ loaded c
      → system.parse_addr c.server.bind ≡ parsed
      → Explains (bind_proxy hash system c parsed)
  unfolding bind_proxy
  bind_proxy-Explains c none e p = (c, e, p, refl)
  bind_proxy-Explains c (some addr) e p = elim (Bool-cases (system.binds [] addr)) [
    | inl up ↦ rw up (start_metrics-Explains c addr c.server.metrics_bind (e, p, up) refl)
    | inr taken ↦ rw taken (c, addr, e, p, taken, refl)
  ]

  start_loaded-Explains :
      (l : Loaded (Config F))
      → load system.parse system.content ≡ l
      → Explains (start_loaded hash system l)
  unfolding start_loaded
  start_loaded-Explains (failed e) h = (h, refl)
  start_loaded-Explains (loaded c) h =
      bind_proxy-Explains c (system.parse_addr c.server.bind) h refl

  -- `main` serves only with the state that the configuration in the file describes: its routes in
  -- their order, each with a balancer of its own, a health tracker and a retry budget with nothing in
  -- them and the configured settings, and a limiter of the configured rate, or none; on its address,
  -- bound, with the metrics server up if the configuration names an address for it, with the reloader
  -- running, and with a prober of each configured upstream once, and no other, running exactly if one
  -- is configured. Otherwise it stops with the error of the first step that fails, without a task if
  -- the proxy's address was not bound, and with the reloader and the prober as above if it stops at
  -- the metrics server.
  pub main-Explains : Explains (main hash system)
  unfolding main
  main-Explains = start_loaded-Explains (load system.parse system.content) refl
