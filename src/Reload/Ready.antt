-- ===== src/Reload/Ready.antt =====
-- That a configuration is applied whole, under the requests that are under way.
use Prim.Native.String.{String}
use l7_proxy.Base.{
  ℕ, suc, ◌+◌, ◌<◌, ◌≡◌, refl, sym, ap, ◌∙◌, subst, inl, inr, List, [], ◌∷◌, some, arith, length,
  get_elem?, get_elem?-append_left, get_elem?-append_right, In, All,
}
use l7_proxy.Config.{RouteConfig, Config}
use l7_proxy.Balancer.{LoadBalancer}
use l7_proxy.Balancer.Ready.{IsReady, HasWeight, create_balancer-IsReady}
use l7_proxy.Router.{Route, new}
use l7_proxy.Reload.{AppState, build_balancer, build_routes, build_balancers, apply_config}

-- A configured route that can be served: an upstream, and a weight if there are weights.
abbrev pub Servable : RouteConfig → Type 0
Servable r = (0 < length r.upstream) × HasWeight r.weights

module _ (hash : String → ℕ) where
  -- The route `r` is the one built of `c`, with its balancer at place `j` of the new ones.
  record Built (address : ℕ) (cs : List RouteConfig) (r : Route) : Type 0 where
    source : RouteConfig
    place : ℕ
    listed : In source cs
    same_prefix : r.prefix ≡ source.prefix
    same_upstreams : r.upstreams ≡ source.upstream
    at : r.balancer ≡ address + place
    stored : get_elem? (build_balancers hash cs) place ≡ some (build_balancer hash source)

  build_routes-Built :
      (address : ℕ) (cs : List RouteConfig) (r : Route)
      → In r (build_routes address cs)
      → Built address cs r
  unfolding build_routes build_balancers
  build_routes-Built address [] r h = absurd h
  build_routes-Built address (c ∷ cs) r (inl e) = record {
    source = c;
    place = 0;
    listed = inl refl;
    same_prefix = ap (λ x. x.prefix) (sym e);
    same_upstreams = ap (λ x. x.upstreams) (sym e);
    at = ap (λ x. x.balancer) (sym e) ∙ omega arith;
    stored = refl;
  }
  build_routes-Built address (c ∷ cs) r (inr h) =
      let b = build_routes-Built (suc address) cs r h in
      record {
        source = b.source;
        place = suc b.place;
        listed = inr b.listed;
        same_prefix = b.same_prefix;
        same_upstreams = b.same_upstreams;
        at = omega (arith, b.at);
        stored = b.stored;
      }

  All-In : (cs : List RouteConfig) (c : RouteConfig) → All Servable cs → In c cs → Servable c
  All-In [] c a h = absurd h
  All-In (x ∷ xs) c a (inl e) = subst Servable e a.0
  All-In (x ∷ xs) c a (inr h) = All-In xs c a.1 h

  module _ {F : Type 0} (s : AppState F) (c : Config F) where
    -- When each configured route has an upstream, and a weight if it has weights, each route of the
    -- new router is one of the configured routes, and its balancer is in the store and ready.
    pub apply_config-IsReady :
        All Servable c.routes
        → (r : Route) → In r (apply_config hash s c).router.routes
        → (source : RouteConfig) × (b : LoadBalancer) × In source c.routes
          × (r.prefix ≡ source.prefix)
          × (r.upstreams ≡ source.upstream)
          × (get_elem? (apply_config hash s c).balancers r.balancer ≡ some b)
          × IsReady (length r.upstreams) b
    unfolding apply_config new
    apply_config-IsReady servable r h =
        let b = build_routes-Built (length s.balancers) c.routes r h in
        let (some_upstream, weighted) = All-In c.routes b.source servable b.listed in
        (
          b.source,
          build_balancer hash b.source,
          b.listed,
          b.same_prefix,
          b.same_upstreams,
          rw b.at (get_elem?-append_right s.balancers _ b.place ∙ b.stored),
          rw b.same_upstreams (
              create_balancer-IsReady hash b.source.strategy (length b.source.upstream)
                b.source.weights some_upstream weighted),
        )

    -- The balancers that the routes of earlier routers point to stay where they are, as they are.
    pub apply_config-keeps :
        (address : ℕ) {b : LoadBalancer}
        → get_elem? s.balancers address ≡ some b
        → get_elem? (apply_config hash s c).balancers address ≡ some b
    unfolding apply_config
    apply_config-keeps address e = get_elem?-append_left s.balancers _ address e
