-- ===== src/Metrics/Tests.antt =====
-- An implementation of the interface of src/metrics.rs to the prometheus crate, and a request that
-- it counts.
use Prim.Native.String.{String, len}
use l7_proxy.Base.{
  ℕ, suc, ◌+◌, ◌≡◌, refl, subst, List, [], ◌∷◌, Bool, true, false, Option, none, some, arith,
  length, nat_beq, any, ◌==◌, string_key, if◌then◌else◌,
}
use l7_proxy.Base.Float.{whole}
use l7_proxy.Http.{Request, broken}
use l7_proxy.Http.Sample.{sample}
use l7_proxy.Proxy.World.{World, Env, Action, requests_total, errors_total}
use l7_proxy.Errors.{ok}
use l7_proxy.Config.{ServerConfig}
use l7_proxy.Balancer.{rr}
use l7_proxy.Router.{Route, Router, match_route}
use l7_proxy.Proxy.Request.{proxy_request}
use l7_proxy.Metrics.{Prometheus, PrometheusLaws, same_labels, Metrics, new, record_log}
use l7_proxy.Base.Map.{lookup}
use mathlib.Core.Option.{some-injective}
use l7_proxy.Metrics.Valid.{is_described, is_histogram}
use l7_proxy.Metrics.Recorded.{HasLabels, IsNew, new_total}
use l7_proxy.Metrics.Requests.{counted_as, proxy_request-recorded}
use l7_proxy.Metrics.Scrape.{Shows, scrape, scrape-Shows}

-- A vector: how many label values it takes, and its counters.
abbrev Counters : Type 0
Counters = ℕ × (List String → ℕ)

abbrev bump : Counters → List String → Option Counters
bump v labels =
    if nat_beq (length labels) v.0
    then some (v.0, λ other. if same_labels labels other then suc (v.1 other) else v.1 other)
    else none

bump_total :
    (v : Counters) (labels : List String)
    → length labels ≡ v.0
    → (v' : Counters) × (bump v labels ≡ some v')
      × (v'.0 ≡ v.0)
      × ((other : List String)
          → v'.1 other ≡ (if same_labels labels other then suc (v.1 other) else v.1 other))
bump_total v labels h = (
  (v.0, λ other. if same_labels labels other then suc (v.1 other) else v.1 other),
  ground arith,
  refl,
  λ other. refl,
)

abbrev register : List String → String → Option (List String)
register names name = if any (λ n. n == name) names then none else some (name ∷ names)

abbrev count_of : Option Counters → List String → ℕ
count_of none labels = 0
count_of (some v) labels = v.1 labels

abbrev new_vector : List String → Counters
new_vector labels = (length labels, λ other. 0)

abbrev crate : Prometheus
crate = record {
  Counters = Counters;
  Histograms = Counters;
  Registry = List String;
  counters =
      λ name help labels. if is_described name help labels then some (new_vector labels) else none;
  histograms = λ name help buckets labels.
      if is_histogram name help buckets labels then some (new_vector labels) else none;
  empty = [];
  register = register;
  inc = bump;
  observe = λ v labels took. bump v labels;
  value = λ v labels. v.1 labels;
  samples = λ v labels. v.1 labels;
  arity = λ v. v.0;
  histogram_arity = λ v. v.0;
  names = λ r. r;
  Families = List (String × Counters);
  gather = λ r cs hs. cs;
  encode = λ families. some "# TYPE";
  shown = λ families name labels. count_of (lookup name families) labels;
}

zero_count :
    (valid : Bool) (labels : List String) (v : Counters)
    → (if valid then some (new_vector labels) else none) ≡ some v
    → (other : List String) → v.1 other ≡ 0
zero_count true labels v e other =
    subst (λ (w : Counters). w.1 other ≡ 0) (some-injective (new_vector labels) v e) refl
zero_count false labels v e other = absurd (ground arith)

crate-PrometheusLaws : PrometheusLaws crate
crate-PrometheusLaws = record {
  counters_total = λ name help labels valid. (new_vector labels, rw valid refl, refl);
  histograms_total = λ name help buckets labels valid. (new_vector labels, rw valid refl, refl);
  no_names = refl;
  register_new = λ r name h. (name ∷ r, rw h refl, refl);
  inc_total = bump_total;
  observe_total = λ v labels took h. bump_total v labels h;
  counters_zero =
      λ name help labels v e other. zero_count (is_described name help labels) labels v e other;
  shown_registered = λ r cs hs name v listed e labels. rw e refl;
  encode_total = λ r cs hs. ("# TYPE", refl);
}

fresh : (m : Metrics crate) × (new crate ≡ some m) × HasLabels crate m × IsNew crate m
fresh = new_total crate crate-PrometheusLaws

-- Every attempt fails.
abbrev env : Env sample ℕ
env = record {
  now = λ n. n;
  reply = λ n req. broken;
  random = λ n most. 0;
  across = λ n w. w;
  woken = λ n. n;
  uuid = "id";
  buffered = some "body";
}

abbrev route : Route
route = record { prefix = "/api"; upstreams = "http://a" ∷ "http://b" ∷ []; balancer = 0 }

abbrev table : Router
table = record { routes = route ∷ [] }

abbrev world : World ℕ
world = record {
  health = record { state = []; failure_threshold = 3; cooldown = 10 };
  budget = record { requests = []; retries = []; budget_percent = 100; window = 10 };
  balancers = rr (record { counter = 1 }) ∷ [];
}

abbrev server : ServerConfig ℕ
server = record {
  bind = "0.0.0.0:8080";
  request_timeout_secs = 5;
  max_retries = 2;
  failure_threshold = 3;
  health_cooldown_secs = 10;
  health_check = none;
  retry_backoff_ms = 10;
  retry_budget_percent = 100;
  retry_budget_window_secs = 10;
  metrics_bind = none;
  overall_timeout_secs = 30;
  rate_limit = none;
  drain_timeout_secs = 30;
  pool_idle_timeout_secs = 90;
  pool_max_idle_per_host = 32;
}

abbrev req : Request sample String
req = record {
  method = "GET";
  path = "/api/users";
  path_and_query = some "/api/users";
  headers = [];
  body = "body";
  remote = some "10.0.0.1";
}

proxy_request-recorded_example :
    let (r, result) = proxy_request len (λ ip. ip) env server table world req in
    (m' : Metrics crate) × (record_log crate fresh.0 r.log ≡ some m')
    × HasLabels crate m'
    × ((labels : List String)
        → crate.value m'.requests_total labels
          ≡ counted_as len
              (λ ip. ip)
              env
              (match_route table "/api/users")
              (some "body")
              "GET"
              result
              labels
            + crate.value fresh.0.requests_total labels)
proxy_request-recorded_example =
    proxy_request-recorded len (λ ip. ip) env crate crate-PrometheusLaws fresh.0 server table world
      req fresh.2

abbrev seen : List Action
seen = requests_total "GET" "/api" "200" ∷ errors_total "/api" "5xx" ∷ []

scrape-Shows_example :
    (text : String) × (families : crate.Families) × (crate.encode families ≡ some text)
    × Shows sample crate seen families
    × (scrape sample crate seen
        ≡ ok (record {
          status = 200;
          headers = ("content-type", "text/plain; version=0.0.4") ∷ [];
          body = text;
        }))
scrape-Shows_example = scrape-Shows sample crate crate-PrometheusLaws seen
