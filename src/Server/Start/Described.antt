-- ===== src/Server/Start/Described.antt =====
-- What a configuration says of the state that `main` of src/main.rs starts with.
use Prim.Native.String.{String}
use l7_proxy.Base.{
  ℕ, zero, suc, ◌+◌, ◌≡◌, refl, ap, ◌∙◌, List, [], ◌∷◌, true, false, Option, none, some, length,
  get_elem?, from_secs, arith,
}
use mathlib.Core.Option.{some-injective}
use l7_proxy.Base.Float.{Float}
use l7_proxy.Config.{RouteConfig, RateLimitConfig, Config}
use l7_proxy.Health
use l7_proxy.RetryBudget
use l7_proxy.RateLimiter
use l7_proxy.RateLimiter.{RateLimiter}
use l7_proxy.Router
use l7_proxy.Router.{Route}
use l7_proxy.Balancer.{create_balancer}
use l7_proxy.Reload.{build_routes, build_balancers}
use l7_proxy.Server.{State, build_rate_limiter, build_state}

length-build_routes :
    (address : ℕ) (cs : List RouteConfig) → length (build_routes address cs) ≡ length cs
unfolding build_routes
length-build_routes address [] = refl
length-build_routes address (c ∷ cs) = ap suc (length-build_routes (suc address) cs)

-- The route of a configured one, at an address.
abbrev route_of : RouteConfig → ℕ → Route
route_of r n = record { prefix = r.prefix; upstreams = r.upstream; balancer = n }

get_elem?-build_routes :
    (address n : ℕ) (cs : List RouteConfig) (i : ℕ) (r : RouteConfig)
    → address + i ≡ n
    → get_elem? cs i ≡ some r
    → get_elem? (build_routes address cs) i ≡ some (route_of r n)
unfolding build_routes
get_elem?-build_routes address n [] i r at e = absurd (ground arith)
get_elem?-build_routes address n (c ∷ cs) zero r at e =
    let here : address ≡ n = omega arith in
    ap (λ m. some (route_of c m)) here ∙ ap (λ x. some (route_of x n)) (some-injective c r e)
get_elem?-build_routes address n (c ∷ cs) (suc i) r at e =
    get_elem?-build_routes (suc address) n cs i r (omega arith) e

get_elem?-build_balancers :
    (hash : String → ℕ) (cs : List RouteConfig) (i : ℕ) (r : RouteConfig)
    → get_elem? cs i ≡ some r
    → get_elem? (build_balancers hash cs) i
      ≡ some (create_balancer hash r.strategy (length r.upstream) r.weights)
unfolding build_balancers
get_elem?-build_balancers hash [] i r e = absurd (ground arith)
get_elem?-build_balancers hash (c ∷ cs) zero r e =
    ap (λ (x : RouteConfig). some (create_balancer hash x.strategy (length x.upstream) x.weights))
      (some-injective c r e)
get_elem?-build_balancers hash (c ∷ cs) (suc i) r e = get_elem?-build_balancers hash cs i r e

module _ {F : Type 0} ⦃f : Float F⦄ (hash : String → ℕ) where
  -- The limiter lets everything pass, or has the configured rate and burst and no client yet.
  abbrev pub Limits : Option (RateLimitConfig F) → RateLimiter F → Type 0
  Limits none l = l.enabled ≡ false
  Limits (some rl) l = l ≡ record {
    buckets = [];
    capacity = f.of_int rl.burst_size;
    refill_rate = rl.requests_per_second;
    enabled = true;
    cleanup_counter = 0;
  }

  -- The state that the configuration describes: each route stands at its place, with a balancer of its
  -- own of its strategy, and nothing has happened yet.
  pub record Described (c : Config F) (s : State F) : Type 0 where
    config : s.app.config ≡ c
    as_many : length s.app.router.routes ≡ length c.routes
    routes :
        (i : ℕ) (r : RouteConfig)
        → get_elem? c.routes i ≡ some r
        → (get_elem? s.app.router.routes i
            ≡ some (record { prefix = r.prefix; upstreams = r.upstream; balancer = i }))
          × (get_elem? s.app.balancers i
              ≡ some (create_balancer hash r.strategy (length r.upstream) r.weights))
    health : s.health ≡ record {
      state = [];
      failure_threshold = c.server.failure_threshold;
      cooldown = from_secs c.server.health_cooldown_secs;
    }
    budget : s.retry_budget ≡ record {
      requests = [];
      retries = [];
      budget_percent = c.server.retry_budget_percent;
      window = from_secs c.server.retry_budget_window_secs;
    }
    limiter : Limits c.server.rate_limit s.rate_limiter

  build_rate_limiter-Limits : (o : Option (RateLimitConfig F)) → Limits o (build_rate_limiter o)
  unfolding build_rate_limiter RateLimiter.new RateLimiter.disabled
  build_rate_limiter-Limits none = refl
  build_rate_limiter-Limits (some rl) = refl

  pub build_state-Described : (c : Config F) → Described c (build_state hash c)
  unfolding build_state Router.new Health.new RetryBudget.new
  build_state-Described c = record {
    config = refl;
    as_many = length-build_routes 0 c.routes;
    routes = λ i r e. (
      get_elem?-build_routes 0 i c.routes i r (omega arith) e,
      get_elem?-build_balancers hash c.routes i r e,
    );
    health = refl;
    budget = refl;
    limiter = build_rate_limiter-Limits c.server.rate_limit;
  }
