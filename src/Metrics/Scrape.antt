-- ===== src/Metrics/Scrape.antt =====
-- What src/metrics.rs renders, and the response of the metrics server of src/server.rs.
use Prim.Native.String.{String}
use l7_proxy.Base.{◌≡◌, refl, ap, ◌∙◌, inl, inr, List, none, some, arith}
use l7_proxy.Http.{Http, Response}
use l7_proxy.Errors.{Outcome, ok, panicked}
use l7_proxy.Proxy.World.{Action}
use l7_proxy.Proxy.Loop.Counts.{tally}
use l7_proxy.Metrics.{Prometheus, PrometheusLaws, Metrics, new, metric_families, render, record_log}
use l7_proxy.Metrics.Recorded.{
  on_requests, on_retries, on_errors, registered, new_total, record_log_total,
}

module _ (H : Http) (P : Prometheus) where
  -- The service of `start_metrics_server`, for every request.
  unfoldable pub metrics_response : Metrics P → Outcome (Response H)
  metrics_response m = elim (render P m) [
    | none ↦ panicked
    | some text ↦ ok (record {
      status = 200;
      headers = H.insert H.no_headers "content-type" (H.from_static "text/plain; version=0.0.4");
      body = H.text text;
    })
  ]

  -- The response, after the calls of the metrics that a log holds.
  unfoldable pub scrape : List Action → Outcome (Response H)
  scrape log = elim (new P) [
    | none ↦ panicked
    | some m ↦ elim (record_log P m log) [ none ↦ panicked | some m' ↦ metrics_response m' ]
  ]

  -- What families show of a log: for each of the three counters how many of its calls have these
  -- labels.
  pub record Shows (log : List Action) (families : P.Families) : Type 0 where
    pub requests :
        (labels : List String)
        → P.shown families "proxy_requests_total" labels ≡ tally (on_requests labels) log
    pub retries :
        (labels : List String)
        → P.shown families "proxy_retries_total" labels ≡ tally (on_retries labels) log
    pub errors :
        (labels : List String)
        → P.shown families "proxy_errors_total" labels ≡ tally (on_errors labels) log

  module _ (laws : PrometheusLaws P) where
    metrics_response_total :
        (m : Metrics P)
        → (text : String) × (P.encode (metric_families P m) ≡ some text)
          × (metrics_response m
              ≡ ok (record {
                status = 200;
                headers =
                    H.insert H.no_headers "content-type"
                      (H.from_static "text/plain; version=0.0.4");
                body = H.text text;
              }))
    unfolding metrics_response render metric_families
    metrics_response_total m =
        let (text, e) = laws.encode_total m.registry _ _ in (text, e, rw (metrics_response, e) refl)

    -- With a crate that behaves as documented, a scrape of the metrics server is answered with a status
    -- of 200, the content type of the text format, and the text of families that show, for each of
    -- the three counters and all label values, how many of the calls since the start, in any log of
    -- requests, were made with these labels.
    pub scrape-Shows :
        (log : List Action)
        → (text : String) × (families : P.Families) × (P.encode families ≡ some text)
          × Shows log families
          × (scrape log
              ≡ ok (record {
                status = 200;
                headers =
                    H.insert H.no_headers "content-type"
                      (H.from_static "text/plain; version=0.0.4");
                body = H.text text;
              }))
    unfolding scrape metric_families
    scrape-Shows log =
        let (m, made, has, (names, no_requests, no_retries, no_errors)) = new_total P laws in
        let (m', taken, registry, _, moved) = record_log_total P laws m log has in
        let (text, e, answer) = metrics_response_total m' in
        let listed : P.names m'.registry ≡ registered = ap P.names registry ∙ names in
        (
          text,
          metric_families P m',
          e,
          record {
            requests = λ labels.
                laws.shown_registered m'.registry _ _ "proxy_requests_total" m'.requests_total
                  (rw listed (inr (inr (inr (inl refl))))) refl labels
                ∙ omega (arith, moved.0 labels, no_requests labels);
            retries = λ labels.
                laws.shown_registered m'.registry _ _ "proxy_retries_total" m'.retries_total
                  (rw listed (inr (inl refl))) refl labels
                ∙ omega (arith, moved.2 labels, no_retries labels);
            errors = λ labels.
                laws.shown_registered m'.registry _ _ "proxy_errors_total" m'.errors_total
                  (rw listed (inl refl)) refl labels
                ∙ omega (arith, moved.3 labels, no_errors labels);
          },
          rw (scrape, made, taken) answer,
        )
