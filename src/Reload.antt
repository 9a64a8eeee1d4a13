-- ===== src/Reload.antt =====
-- src/config_reloader.rs, `apply_config`. The parts of `AppState` that it swaps, with a store that
-- holds the balancers of all routers so far: requests under way keep the router that they loaded.
pub mod Ready
pub mod File
mod Tests
use Prim.Native.String.{String}
use l7_proxy.Base.{ℕ, suc, List, [], ◌∷◌, ◌++◌, length}
use l7_proxy.Config.{RouteConfig, Config}
use l7_proxy.Balancer.{LoadBalancer, create_balancer}
use l7_proxy.Router.{Route, Router, new}

pub record AppState (F : Type 0) : Type 0 where
  pub config : Config F
  pub router : Router
  pub balancers : List LoadBalancer

-- The closure of `map`: its route, and its balancer.
abbrev pub build_route : ℕ → RouteConfig → Route
build_route address r = record { prefix = r.prefix; upstreams = r.upstream; balancer = address }

abbrev pub build_balancer : (String → ℕ) → RouteConfig → LoadBalancer
build_balancer hash r = create_balancer hash r.strategy (length r.upstream) r.weights

-- The routes, with balancers at one address after the other.
unfoldable pub build_routes : ℕ → List RouteConfig → List Route
build_routes address [] = []
build_routes address (r ∷ rs) = build_route address r ∷ build_routes (suc address) rs

unfoldable pub build_balancers : (String → ℕ) → List RouteConfig → List LoadBalancer
build_balancers hash [] = []
build_balancers hash (r ∷ rs) = build_balancer hash r ∷ build_balancers hash rs

unfoldable pub apply_config : {F : Type 0} → (String → ℕ) → AppState F → Config F → AppState F
apply_config hash s c = record {
  config = c;
  router = new (build_routes (length s.balancers) c.routes);
  balancers = s.balancers ++ build_balancers hash c.routes;
}
