-- ===== src/Router/Tests.antt =====
-- A run of the router of src/router.rs, and examples of what is proved of it.
use l7_proxy.Base.{◌≡◌, ◌↔◌, refl, [], ◌∷◌, none, In}
use l7_proxy.Router.{Route, Router, match_route}
use l7_proxy.Router.Longest.{IsLongest, Serves, match_route-IsLongest, match_route-eq-none_iff}

abbrev root : Route
root = record { prefix = "/"; upstreams = "http://a" ∷ []; balancer = 0 }

abbrev api : Route
api = record { prefix = "/api"; upstreams = "http://b" ∷ []; balancer = 1 }

abbrev table : Router
table = record { routes = root ∷ api ∷ [] }

match_route-IsLongest_example : IsLongest table.routes "/api/users" api
match_route-IsLongest_example =
    match_route-IsLongest table "/api/users" (unfold match_route in refl)

match_route-eq-none_iff_example :
    (match_route table "other" ≡ none) ↔ ((r : Route) → In r table.routes → ¬ Serves "other" r)
match_route-eq-none_iff_example = match_route-eq-none_iff table "other"
