-- ===== src/Router.antt =====
-- src/router.rs: the route table and its longest-prefix match.
pub mod Longest
mod Tests
use Prim.Native.String.{String, len}
use l7_proxy.Base.{ℕ, List, [], ◌∷◌, Option, none, some, leb, if◌then◌else◌, retain}
use l7_proxy.Base.Text.{starts_with}

-- `balancer` is the address of the boxed balancer in the store of balancers, since its atomics are
-- shared by all requests that hold the route.
pub record Route : Type 0 where
  pub prefix : String
  pub upstreams : List String
  pub balancer : ℕ

pub record Router : Type 0 where
  pub routes : List Route

unfoldable pub new : List Route → Router
new routes = record { routes = routes }

-- `max_by_key` by the length of the prefix in bytes: of equal keys the last one is taken.
unfoldable pub longest_of : Route → List Route → Route
longest_of best [] = best
longest_of best (r ∷ rs) = longest_of (if leb (len best.prefix) (len r.prefix) then r else best) rs

unfoldable pub longest : List Route → Option Route
unfolding longest_of
longest [] = none
longest (r ∷ rs) = some (longest_of r rs)

unfoldable pub match_route : Router → String → Option Route
unfolding longest
match_route router path = longest (retain (λ r. starts_with path r.prefix) router.routes)
