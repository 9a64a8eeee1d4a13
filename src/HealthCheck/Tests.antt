-- ===== src/HealthCheck/Tests.antt =====
-- Two rounds over three upstreams, of which one is down and one comes back.
use Prim.Native.String.{String}
use l7_proxy.Base.{
  ℕ, ◌≡◌, refl, List, [], ◌∷◌, none, arith, leb, ◌-◌, ◌==◌, string_key, if◌then◌else◌, In,
}
use l7_proxy.Config.{RouteConfig, round_robin}
use l7_proxy.Health.{HealthTracker, is_healthy}
use l7_proxy.Health.Breaker.{IsValid, view}
use l7_proxy.Health.Trace.{Event, failure, question}
use l7_proxy.Health.Steady.{Failing, last_failure}
use l7_proxy.HealthCheck.{Probe, answered, unreachable, collect, rounds}
use l7_proxy.HealthCheck.Rounds.{after_probes, view-rounds, event_of, round_events, all_events}
use l7_proxy.HealthCheck.Detection.{is_healthy-failed_rounds}
use l7_proxy.HealthCheck.Shared.{history, is_healthy-rounds}
use l7_proxy.HealthCheck.Once.{Once, IsConfigured, collect-Once}

abbrev tracker : HealthTracker
tracker = record { state = []; failure_threshold = 2; cooldown = 10 }

tracker-IsValid : IsValid tracker
tracker-IsValid = record { bounded = omega arith; entries = λ u. tt }

-- `b` never answers, and `c` only from the second round on.
abbrev get : ℕ → String → Probe
get n url =
    if url == "b/health"
    then unreachable
    else if url == "c/health"
    then if leb 3 n then answered 200 else answered 503
    else answered 200

-- Meanwhile, requests fail on `a`.
abbrev others : ℕ → List Event
others n = failure "a" n ∷ []

view-rounds_example :
    let t' = rounds "/health" get (λ n. n) others 2 0 tracker ("a" ∷ "b" ∷ "c" ∷ []) in
    (view t' "b" ≡ after_probes "/health" get (λ n. n) 2 "b" 3 1 2 0 (view tracker "b"))
    × IsValid t'
    × (t'.cooldown ≡ 10)
view-rounds_example =
    view-rounds "/health" get (λ n. n) others "b" ("a" ∷ []) ("c" ∷ []) 2 0 tracker tracker-IsValid
      (refl, tt) (refl, tt) (λ i. (refl, tt))

is_healthy-failed_rounds_example :
    (is_healthy (rounds "/health" get (λ n. n) others 2 0 tracker ("a" ∷ "b" ∷ "c" ∷ [])) "b" 9).0
    ≡ leb 10 (9 - 4)
is_healthy-failed_rounds_example =
    is_healthy-failed_rounds "/health" get (λ n. n) others "b" ("a" ∷ []) ("c" ∷ []) tracker
      tracker-IsValid (refl, tt) (refl, tt) (λ i. (refl, tt)) 1 0 9 (omega arith) (λ r h. refl)

abbrev first_route : RouteConfig
first_route = record {
  prefix = "/";
  upstream = "http://a" ∷ "http://b" ∷ [];
  strategy = round_robin;
  weights = none;
}

abbrev second_route : RouteConfig
second_route = record {
  prefix = "/api";
  upstream = "http://b" ∷ "http://c" ∷ [];
  strategy = round_robin;
  weights = none;
}

collect-Once_example :
    let rs = first_route ∷ second_route ∷ [] in
    (IsConfigured "http://b" rs → Once "http://b" (collect [] rs))
    × (In "http://b" (collect [] rs) → IsConfigured "http://b" rs)
collect-Once_example = collect-Once (first_route ∷ second_route ∷ []) "http://b"

-- Requests ask for `b` before each probe.
abbrev asking : ℕ → List Event
asking n = question "b" n ∷ []

asking-Failing :
    Failing 10 "b" 0 0 (history "/health" get (λ n. n) asking "b" ("a" ∷ []) ("c" ∷ []) 2 0)
unfolding all_events round_events event_of
asking-Failing = (
  λ same pos. omega arith,
  (
    refl,
    (
      λ same pos. omega arith,
      (
        λ same pos. omega arith,
        (
          λ same pos. omega arith,
          (refl, (λ same pos. omega arith, (λ same pos. omega arith, (refl, tt)))),
        ),
      ),
    ),
  ),
)

is_healthy-rounds_example :
    (is_healthy (rounds "/health" get (λ n. n) asking 2 0 tracker ("a" ∷ "b" ∷ "c" ∷ [])) "b" 9).0
    ≡ leb 10 (
        9
        - last_failure "b" 0 (history "/health" get (λ n. n) asking "b" ("a" ∷ []) ("c" ∷ []) 2 0))
is_healthy-rounds_example =
    is_healthy-rounds "/health" get (λ n. n) asking "b" ("a" ∷ []) ("c" ∷ []) tracker 1 0 9
      tracker-IsValid (omega arith) asking-Failing
