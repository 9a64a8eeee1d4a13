-- ===== src/Metrics.antt =====
-- src/metrics.rs, and what the calls of the metrics in src/proxy.rs come to. The prometheus crate is a
-- parameter: vectors of counters and histograms, and the registry.
pub mod Valid
pub mod Recorded
pub mod Requests
pub mod Scrape
mod Tests
use Prim.Native.String.{String}
use l7_proxy.Base.{
  ℕ, suc, ◌≡◌, ◌⊎◌, List, [], ◌∷◌, Bool, true, false, ◌&&◌, Option, none, some, ◌==◌, string_key,
  length, if◌then◌else◌, any, In,
}
use l7_proxy.Base.Map.{lookup}
use l7_proxy.Metrics.Valid.{is_described, is_histogram}
use l7_proxy.Proxy.World.{
  Action, requests_total, request_duration, retries_total, errors_total, slept, started, finished,
}

abbrev pub same_labels : List String → List String → Bool
same_labels [] [] = true
same_labels (x ∷ xs) (y ∷ ys) = x == y && same_labels xs ys
same_labels [] (y ∷ ys) = false
same_labels (x ∷ xs) [] = false

infixl 5 ◌>>=◌
abbrev pub ◌>>=◌ : {A B : Type 0} → Option A → (A → Option B) → Option B
none >>= f = none
some a >>= f = f a

-- What is used of the crate; `none` is an error that is unwrapped, or a panic.
pub record Prometheus : Type 1 where
  pub Counters : Type 0
  pub Histograms : Type 0
  pub Registry : Type 0
  -- `IntCounterVec::new`, by name, help and label names
  pub counters : String → String → List String → Option Counters
  -- `HistogramVec::new`, by name, help, buckets in milliseconds and label names
  pub histograms : String → String → List ℕ → List String → Option Histograms
  pub empty : Registry
  -- `Registry::register`, by the name of the metric
  pub register : Registry → String → Option Registry
  -- `with_label_values(..).inc()`
  pub inc : Counters → List String → Option Counters
  -- `with_label_values(..).observe(..)`, in nanoseconds
  pub observe : Histograms → List String → ℕ → Option Histograms
  -- `with_label_values(..).get()`, and `get_sample_count()`
  pub value : Counters → List String → ℕ
  pub samples : Histograms → List String → ℕ
  -- How many label values a vector takes, and which names are registered.
  pub arity : Counters → ℕ
  pub histogram_arity : Histograms → ℕ
  pub names : Registry → List String
  -- `MetricFamily`s; `gather`, of a registry whose metrics, which share their counts with the vectors
  -- here, are these by name; `encode`, and `from_utf8` of what it writes
  pub Families : Type 0
  pub gather : Registry → List (String × Counters) → List (String × Histograms) → Families
  pub encode : Families → Option String
  -- What families show for a counter, by its name and label values.
  pub shown : Families → String → List String → ℕ

module _ (P : Prometheus) where
  pub record Metrics : Type 0 where
    pub registry : P.Registry
    pub requests_total : P.Counters
    pub request_duration_seconds : P.Histograms
    pub retries_total : P.Counters
    pub errors_total : P.Counters

  abbrev pub duration_buckets : List ℕ
  duration_buckets = 5 ∷ 10 ∷ 25 ∷ 50 ∷ 100 ∷ 250 ∷ 500 ∷ 1000 ∷ 2500 ∷ 5000 ∷ 10000 ∷ []

  -- The four calls of `register`.
  unfoldable pub register_all : Option P.Registry
  register_all = do
    one ← P.register P.empty "proxy_requests_total"
    two ← P.register one "proxy_request_duration_seconds"
    three ← P.register two "proxy_retries_total"
    P.register three "proxy_errors_total"

  -- `Metrics::new`
  unfoldable pub new : Option Metrics
  new = do
    requests ←
        P.counters "proxy_requests_total" "Total number of proxied requests"
          ("method" ∷ "route" ∷ "status" ∷ [])
    durations ←
        P.histograms "proxy_request_duration_seconds" "Request latency in seconds" duration_buckets
          ("method" ∷ "route" ∷ [])
    retries ← P.counters "proxy_retries_total" "Total number of retry attempts" ("route" ∷ [])
    errors ←
        P.counters "proxy_errors_total" "Total number of upstream errors"
          ("route" ∷ "error_type" ∷ [])
    registry ← register_all
    some (record {
      registry = registry;
      requests_total = requests;
      request_duration_seconds = durations;
      retries_total = retries;
      errors_total = errors;
    })

  -- What `registry.gather()` returns, whose metrics are clones of the vectors.
  unfoldable pub metric_families : Metrics → P.Families
  metric_families m =
      P.gather m.registry
        (("proxy_requests_total", m.requests_total)
          ∷ ("proxy_retries_total", m.retries_total)
          ∷ ("proxy_errors_total", m.errors_total)
          ∷ [])
        (("proxy_request_duration_seconds", m.request_duration_seconds) ∷ [])

  unfoldable pub render : Metrics → Option String
  render m = P.encode (metric_families m)

  -- What an action of `proxy_request` does to the metrics.
  unfoldable pub record_action : Metrics → Action → Option Metrics
  record_action m (requests_total method route status) = do
    v ← P.inc m.requests_total (method ∷ route ∷ status ∷ [])
    some (record m { requests_total = v })
  record_action m (request_duration method route took) = do
    v ← P.observe m.request_duration_seconds (method ∷ route ∷ []) took
    some (record m { request_duration_seconds = v })
  record_action m (retries_total route) = do
    v ← P.inc m.retries_total (route ∷ [])
    some (record m { retries_total = v })
  record_action m (errors_total route kind) = do
    v ← P.inc m.errors_total (route ∷ kind ∷ [])
    some (record m { errors_total = v })
  record_action m (slept t) = some m
  record_action m (started i) = some m
  record_action m (finished i) = some m

  -- All actions of a log, which has the latest first.
  unfoldable pub record_log : Metrics → List Action → Option Metrics
  record_log m [] = some m
  record_log m (a ∷ log) = do before ← record_log m log; record_action before a

-- The documented behaviour of the crate: a vector is made of a valid description; it takes as many label values as it has label names,
-- and counts for each combination of them on its own; a name is registered once.
pub record PrometheusLaws (P : Prometheus) : Type 0 where
  pub counters_total :
      (name help : String) (labels : List String)
      → is_described name help labels ≡ true
      → (v : P.Counters) × (P.counters name help labels ≡ some v) × (P.arity v ≡ length labels)
  pub histograms_total :
      (name help : String) (buckets : List ℕ) (labels : List String)
      → is_histogram name help buckets labels ≡ true
      → (v : P.Histograms) × (P.histograms name help buckets labels ≡ some v)
        × (P.histogram_arity v ≡ length labels)
  pub no_names : P.names P.empty ≡ []
  pub register_new :
      (r : P.Registry) (name : String)
      → any (λ n. n == name) (P.names r) ≡ false
      → (r' : P.Registry) × (P.register r name ≡ some r') × (P.names r' ≡ name ∷ P.names r)
  pub inc_total :
      (v : P.Counters) (labels : List String)
      → length labels ≡ P.arity v
      → (v' : P.Counters) × (P.inc v labels ≡ some v')
        × (P.arity v' ≡ P.arity v)
        × ((other : List String)
            → P.value v' other
              ≡ (if same_labels labels other then suc (P.value v other) else P.value v other))
  pub observe_total :
      (v : P.Histograms) (labels : List String) (took : ℕ)
      → length labels ≡ P.histogram_arity v
      → (v' : P.Histograms) × (P.observe v labels took ≡ some v')
        × (P.histogram_arity v' ≡ P.histogram_arity v)
        × ((other : List String)
            → P.samples v' other
              ≡ (if same_labels labels other then suc (P.samples v other) else P.samples v other))
  pub counters_zero :
      (name help : String) (labels : List String) (v : P.Counters)
      → P.counters name help labels ≡ some v
      → (other : List String) → P.value v other ≡ 0
  pub shown_registered :
      (r : P.Registry) (cs : List (String × P.Counters)) (hs : List (String × P.Histograms))
      (name : String) (v : P.Counters)
      → In name (P.names r)
      → lookup name cs ≡ some v
      → (labels : List String) → P.shown (P.gather r cs hs) name labels ≡ P.value v labels
  -- `gather` leaves out the families that have no metrics, which `encode` would reject.
  pub encode_total :
      (r : P.Registry) (cs : List (String × P.Counters)) (hs : List (String × P.Histograms))
      → (text : String) × (P.encode (P.gather r cs hs) ≡ some text)
