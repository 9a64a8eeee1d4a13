-- ===== src/Reload/File.antt =====
-- src/config_reloader.rs, `reload_config` and the loop of `spawn_config_reloader`: what the file
-- holds and what serde makes of it are parameters.
use Prim.Native.String.{String}
use l7_proxy.Base.{◌≡◌, refl, ap, ◌∙◌, List, [], ◌∷◌, Option, none, some, get_elem?, length, ℕ, suc}
use l7_proxy.Config.{RouteConfig, Config}
use l7_proxy.Balancer.{LoadBalancer}
use l7_proxy.Router.{Route, new}
use l7_proxy.Reload.{AppState, build_routes, apply_config}
use l7_proxy.Reload.Ready.{apply_config-keeps}

-- Why a configuration is not loaded: the file cannot be read, or not be parsed.
pub data LoadError : Type 0 where
  unreadable malformed : LoadError

pub data Loaded (A : Type 0) : Type 0 where
  loaded : A → Loaded A
  failed : LoadError → Loaded A

-- The prefixes and upstreams of a router are those of a configuration, in the same order.
abbrev pub Lists : List Route → List RouteConfig → Type 0
Lists [] [] = Unit
Lists [] (c ∷ cs) = ⊥
Lists (r ∷ rs) [] = ⊥
Lists (r ∷ rs) (c ∷ cs) = (r.prefix ≡ c.prefix) × (r.upstreams ≡ c.upstream) × Lists rs cs

pub build_routes-Lists : (address : ℕ) (cs : List RouteConfig) → Lists (build_routes address cs) cs
unfolding build_routes
build_routes-Lists address [] = tt
build_routes-Lists address (c ∷ cs) = (refl, refl, build_routes-Lists (suc address) cs)

module _ {F : Type 0} where
  -- The `?` on the loaded configuration.
  unfoldable pub applied :
      (String → ℕ) → AppState F → Loaded (Config F) → Option LoadError × AppState F
  applied hash s (loaded c) = (none, apply_config hash s c)
  applied hash s (failed e) = (some e, s)

  -- The configuration that was loaded, or else the one before.
  abbrev pub or_before : Config F → Loaded (Config F) → Config F
  or_before c (loaded d) = d
  or_before c (failed e) = c

  applied-config :
      (hash : String → ℕ) (s : AppState F) (l : Loaded (Config F))
      → (applied hash s l).1.config ≡ or_before s.config l
  unfolding applied apply_config
  applied-config hash s (loaded c) = refl
  applied-config hash s (failed e) = refl

  applied-Lists :
      (hash : String → ℕ) (s : AppState F) (l : Loaded (Config F))
      → Lists s.router.routes s.config.routes
      → Lists (applied hash s l).1.router.routes (applied hash s l).1.config.routes
  unfolding applied apply_config new
  applied-Lists hash s (loaded c) h = build_routes-Lists (length s.balancers) c.routes
  applied-Lists hash s (failed e) h = h

  applied-keeps :
      (hash : String → ℕ) (s : AppState F) (l : Loaded (Config F)) (address : ℕ) {b : LoadBalancer}
      → get_elem? s.balancers address ≡ some b
      → get_elem? (applied hash s l).1.balancers address ≡ some b
  unfolding applied
  applied-keeps hash s (loaded c) address e = apply_config-keeps hash s c address e
  applied-keeps hash s (failed x) address e = e

module _ {F : Type 0} (parse : String → Option (Config F)) where
  -- `read_to_string(path)?`, and `from_str(&config_str)?`
  unfoldable pub load : Option String → Loaded (Config F)
  load none = failed unreadable
  load (some text) = elim (parse text) [ none ↦ failed malformed | some c ↦ loaded c ]

  unfoldable pub reload_config :
      (String → ℕ) → AppState F → Option String → Option LoadError × AppState F
  reload_config hash s content = applied hash s (load content)

  -- The loop, over what the file holds at each signal; errors are only logged.
  unfoldable pub reload_loop : (String → ℕ) → AppState F → List (Option String) → AppState F
  reload_loop hash s [] = s
  reload_loop hash s (content ∷ later) = reload_loop hash (reload_config hash s content).1 later

  -- The last configuration that the file held and that could be loaded, or the one of the start.
  abbrev pub latest : Config F → List (Option String) → Config F
  latest c [] = c
  latest c (content ∷ later) = latest (or_before c (load content)) later

  -- After any signals the configuration in force is the last one that could be loaded, or that of
  -- the start if there was none, and the router lists its routes if the first router did so for the
  -- first configuration. The balancers that earlier routers point to are still in the store, as
  -- they were.
  pub reload_loop-latest :
      (hash : String → ℕ) (s : AppState F) (contents : List (Option String))
      → Lists s.router.routes s.config.routes
      → ((reload_loop hash s contents).config ≡ latest s.config contents)
        × Lists
            (reload_loop hash s contents).router.routes
            (reload_loop hash s contents).config.routes
        × ((address : ℕ) (b : LoadBalancer)
            → get_elem? s.balancers address ≡ some b
            → get_elem? (reload_loop hash s contents).balancers address ≡ some b)
  unfolding reload_loop reload_config
  reload_loop-latest hash s [] h = (refl, h, λ address b e. e)
  reload_loop-latest hash s (content ∷ later) h =
      let next = (applied hash s (load content)).1 in
      let (same, listed, kept) =
        reload_loop-latest hash next later (applied-Lists hash s (load content) h) in
      (
        same ∙ ap (λ c. latest c later) (applied-config hash s (load content)),
        listed,
        λ address b e. kept address b (applied-keeps hash s (load content) address e),
      )
