-- ===== src/Metrics/Recorded.antt =====
-- That src/metrics.rs never panics under the calls of src/proxy.rs, and what a request leaves in it.
use Prim.Native.String.{String}
use l7_proxy.Base.{◌+◌, ◌≡◌, refl, sym, ◌∙◌, List, [], ◌∷◌, Bool, false, some, arith}
use l7_proxy.Proxy.World.{
  Action, requests_total, request_duration, retries_total, errors_total, slept, started, finished,
}
use l7_proxy.Proxy.Loop.Counts.{tally}
use l7_proxy.Metrics.{
  Prometheus, PrometheusLaws, same_labels, Metrics, duration_buckets, register_all, new,
  record_action, record_log,
}

-- Which counter an action moves, by its labels.
abbrev pub on_requests : List String → Action → Bool
on_requests labels (requests_total m r s) = same_labels (m ∷ r ∷ s ∷ []) labels
on_requests labels _ = false

abbrev pub on_durations : List String → Action → Bool
on_durations labels (request_duration m r t) = same_labels (m ∷ r ∷ []) labels
on_durations labels _ = false

abbrev pub on_retries : List String → Action → Bool
on_retries labels (retries_total r) = same_labels (r ∷ []) labels
on_retries labels _ = false

abbrev pub on_errors : List String → Action → Bool
on_errors labels (errors_total r k) = same_labels (r ∷ k ∷ []) labels
on_errors labels _ = false

-- The names of the four metrics, the latest registered first.
abbrev pub registered : List String
registered =
    "proxy_errors_total" ∷ "proxy_retries_total" ∷ "proxy_request_duration_seconds"
    ∷ "proxy_requests_total" ∷ []

tally-cons :
    (p : Action → Bool) (a : Action) (log : List Action)
    → tally p (a ∷ log) ≡ tally p (a ∷ []) + tally p log
tally-cons p a log = ground arith

module _ (P : Prometheus) where
  -- The label names of the four vectors.
  pub record HasLabels (m : Metrics P) : Type 0 where
    pub requests : P.arity m.requests_total ≡ 3
    pub durations : P.histogram_arity m.request_duration_seconds ≡ 2
    pub retries : P.arity m.retries_total ≡ 1
    pub errors : P.arity m.errors_total ≡ 2

  -- Nothing is counted yet, and the four metrics are registered.
  abbrev pub IsNew : Metrics P → Type 0
  IsNew m =
      (P.names m.registry ≡ registered)
      × ((labels : List String) → P.value m.requests_total labels ≡ 0)
      × ((labels : List String) → P.value m.retries_total labels ≡ 0)
      × ((labels : List String) → P.value m.errors_total labels ≡ 0)

  -- From one state to another each metric has moved by the actions of a log with its labels.
  abbrev pub Moved : Metrics P → Metrics P → List Action → Type 0
  Moved m m' log =
      ((labels : List String)
        → P.value m'.requests_total labels
          ≡ tally (on_requests labels) log + P.value m.requests_total labels)
      × ((labels : List String)
          → P.samples m'.request_duration_seconds labels
            ≡ tally (on_durations labels) log + P.samples m.request_duration_seconds labels)
      × ((labels : List String)
          → P.value m'.retries_total labels
            ≡ tally (on_retries labels) log + P.value m.retries_total labels)
      × ((labels : List String)
          → P.value m'.errors_total labels
            ≡ tally (on_errors labels) log + P.value m.errors_total labels)

  module _ (laws : PrometheusLaws P) where
    register_all_total : (r : P.Registry) × (register_all P ≡ some r) × (P.names r ≡ registered)
    unfolding register_all
    register_all_total =
        let (r1, e1, n1) =
          laws.register_new P.empty "proxy_requests_total" (rw laws.no_names refl) in
        let (r2, e2, n2) =
          laws.register_new r1 "proxy_request_duration_seconds" (rw (n1, laws.no_names) refl) in
        let (r3, e3, n3) =
          laws.register_new r2 "proxy_retries_total" (rw (n2, n1, laws.no_names) refl) in
        let (r4, e4, n4) =
          laws.register_new r3 "proxy_errors_total" (rw (n3, n2, n1, laws.no_names) refl) in
        (r4, rw (register_all, e1, e2, e3) e4, rw (n4, n3, n2, n1, laws.no_names) refl)

    -- With a crate that behaves as documented, `Metrics::new` does not panic, and its vectors take the
    -- labels that they are given.
    pub new_total : (m : Metrics P) × (new P ≡ some m) × HasLabels m × IsNew m
    unfolding new
    new_total =
        let (a, ea, na) =
          laws.counters_total "proxy_requests_total" "Total number of proxied requests"
            ("method" ∷ "route" ∷ "status" ∷ []) refl in
        let (b, eb, nb) =
          laws.histograms_total "proxy_request_duration_seconds" "Request latency in seconds"
            (duration_buckets P) ("method" ∷ "route" ∷ []) refl in
        let (c, ec, nc) =
          laws.counters_total "proxy_retries_total" "Total number of retry attempts" ("route" ∷ [])
            refl in
        let (d, ed, nd) =
          laws.counters_total "proxy_errors_total" "Total number of upstream errors"
            ("route" ∷ "error_type" ∷ []) refl in
        let (r, er, nr) = register_all_total in
        (
          record {
            registry = r;
            requests_total = a;
            request_duration_seconds = b;
            retries_total = c;
            errors_total = d;
          },
          rw (new, ea, eb, ec, ed, er) refl,
          record { requests = na; durations = nb; retries = nc; errors = nd },
          (
            nr,
            laws.counters_zero _ _ _ a ea,
            laws.counters_zero _ _ _ c ec,
            laws.counters_zero _ _ _ d ed,
          ),
        )

    stays : (m : Metrics P) → Moved m m []
    stays m =
        (λ labels. omega arith, λ labels. omega arith, λ labels. omega arith, λ labels. omega arith)

    record_action_total :
        (m : Metrics P) (a : Action)
        → HasLabels m
        → (m' : Metrics P) × (record_action P m a ≡ some m')
          × (m'.registry ≡ m.registry)
          × HasLabels m'
          × Moved m m' (a ∷ [])
    unfolding record_action
    record_action_total m (requests_total method route status) h =
        let (v, e, n, moved) =
          laws.inc_total m.requests_total (method ∷ route ∷ status ∷ []) (sym h.requests) in
        (
          record m { requests_total = v },
          rw (record_action, e) refl,
          refl,
          record {
            requests = n ∙ h.requests;
            durations = h.durations;
            retries = h.retries;
            errors = h.errors;
          },
          (
            λ labels. moved labels ∙ ground arith,
            λ labels. omega arith,
            λ labels. omega arith,
            λ labels. omega arith,
          ),
        )
    record_action_total m (request_duration method route took) h =
        let (v, e, n, moved) =
          laws.observe_total m.request_duration_seconds (method ∷ route ∷ []) took
            (sym h.durations) in
        (
          record m { request_duration_seconds = v },
          rw (record_action, e) refl,
          refl,
          record {
            requests = h.requests;
            durations = n ∙ h.durations;
            retries = h.retries;
            errors = h.errors;
          },
          (
            λ labels. omega arith,
            λ labels. moved labels ∙ ground arith,
            λ labels. omega arith,
            λ labels. omega arith,
          ),
        )
    record_action_total m (retries_total route) h =
        let (v, e, n, moved) = laws.inc_total m.retries_total (route ∷ []) (sym h.retries) in
        (
          record m { retries_total = v },
          rw (record_action, e) refl,
          refl,
          record {
            requests = h.requests;
            durations = h.durations;
            retries = n ∙ h.retries;
            errors = h.errors;
          },
          (
            λ labels. omega arith,
            λ labels. omega arith,
            λ labels. moved labels ∙ ground arith,
            λ labels. omega arith,
          ),
        )
    record_action_total m (errors_total route kind) h =
        let (v, e, n, moved) = laws.inc_total m.errors_total (route ∷ kind ∷ []) (sym h.errors) in
        (
          record m { errors_total = v },
          rw (record_action, e) refl,
          refl,
          record {
            requests = h.requests;
            durations = h.durations;
            retries = h.retries;
            errors = n ∙ h.errors;
          },
          (
            λ labels. omega arith,
            λ labels. omega arith,
            λ labels. omega arith,
            λ labels. moved labels ∙ ground arith,
          ),
        )
    record_action_total m (slept t) h = (m, refl, refl, h, stays m)
    record_action_total m (started i) h = (m, refl, refl, h, stays m)
    record_action_total m (finished i) h = (m, refl, refl, h, stays m)

    -- The metrics take every log without a panic, and move by what it holds.
    pub record_log_total :
        (m : Metrics P) (log : List Action)
        → HasLabels m
        → (m' : Metrics P) × (record_log P m log ≡ some m')
          × (m'.registry ≡ m.registry)
          × HasLabels m'
          × Moved m m' log
    unfolding record_log
    record_log_total m [] h = (m, refl, refl, h, stays m)
    record_log_total m (a ∷ log) h =
        let (m1, e1, r1, h1, k1) = record_log_total m log h in
        let (m2, e2, r2, h2, k2) = record_action_total m1 a h1 in
        (
          m2,
          rw (record_log, e1) e2,
          r2 ∙ r1,
          h2,
          (
            λ labels.
                omega (arith, k1.0 labels, k2.0 labels, tally-cons (on_requests labels) a log),
            λ labels.
                omega (arith, k1.1 labels, k2.1 labels, tally-cons (on_durations labels) a log),
            λ labels. omega (arith, k1.2 labels, k2.2 labels, tally-cons (on_retries labels) a log),
            λ labels. omega (arith, k1.3 labels, k2.3 labels, tally-cons (on_errors labels) a log),
          ),
        )
