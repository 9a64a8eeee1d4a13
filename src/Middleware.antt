-- ===== src/Middleware.antt =====
-- src/middleware.rs, and the stack of layers that src/server.rs builds for a connection. Each of
-- them makes of an inner service another one.
pub mod Tower
pub mod Tokio
pub mod Deadline
pub mod Stack
mod Tests
use l7_proxy.Base.{
  ℕ, ◌+◌, List, [], ◌∷◌, Bool, Option, none, some, ltb, map, from_secs, if◌then◌else◌,
}
use l7_proxy.Base.Float.{Float}
use l7_proxy.Http.{Http, Request, Response}
use l7_proxy.Errors.{Outcome, ok, err, panicked, built, into_response}
use l7_proxy.RateLimiter.{IpAddr, RateLimiter, check}
use l7_proxy.Middleware.Tokio.{Runtime}
use l7_proxy.Middleware.Tower.{ready, Future, at_once, beside, Handler, Service}

module _ (H : Http) where
  -- The `match` of `ProxyService::call`.
  unfoldable pub answered : Outcome (Response H) → Outcome (Response H)
  answered (ok resp) = ok resp
  answered (err e) = ok (into_response H e)
  answered panicked = panicked

  abbrev pub request_timed_out : Response H
  request_timed_out = built H 504 "Request timed out"

  module _ {S : Type 0} where
    -- `ProxyService`, around `proxy_request`
    unfoldable pub proxy_service : Handler H S → Service H S
    proxy_service proxy_request = record {
      poll_ready = λ s. ready;
      call = λ req s.
          let future = proxy_request req s in record future { result = answered future.result };
    }

    -- `LoggingLayer`, without its line in the log
    unfoldable pub logging : Service H S → Service H S
    logging inner = record { poll_ready = inner.poll_ready; call = inner.call }

    -- `tokio::time::timeout(..).await` and its `match`. A future that is done when it is polled at
    -- the deadline is in time. One that is not is dropped, and what it has changed stays changed:
    -- `others` is what all other tasks do from its last pause to the deadline.
    unfoldable pub timed : ⦃runtime : Runtime⦄ → ℕ → (S → S) → Future H S → Future H S
    timed ⦃runtime⦄ deadline others future = elim (runtime.dropped_in deadline future.suspended) [
      | none ↦ future
      | some ((until, s), earlier) ↦ record {
        result = ok request_timed_out;
        state = others s;
        suspended = (deadline, s) ∷ earlier;
      }
    ]

    -- `RequestTimeoutLayer`, for a call that begins at an instant.
    unfoldable pub request_timeout :
        ⦃runtime : Runtime⦄ → ℕ → ℕ → (S → S) → Service H S → Service H S
    request_timeout timeout begun others inner = record {
      poll_ready = inner.poll_ready;
      call = λ req s. timed (begun + timeout) others (inner.call req s);
    }

    -- `InjectAddrService`
    unfoldable pub inject_addr : IpAddr → Service H S → Service H S
    inject_addr remote_ip inner = record {
      poll_ready = inner.poll_ready;
      call = λ req s. inner.call (record req { remote = some remote_ip }) s;
    }

  abbrev pub too_many_requests : Response H
  too_many_requests = record {
    status = 429;
    headers = H.insert H.no_headers "retry-after" (H.from_static "1");
    body = H.text "Rate limit exceeded";
  }

  module _ {F S : Type 0} ⦃f : Float F⦄ where
    -- What `RateLimitMiddleware::call` does when the limiter has been asked.
    unfoldable pub limited :
        Service H S → Request H IpAddr → Bool × RateLimiter F → S → Future H (RateLimiter F × S)
    limited inner req (passed, l) s =
        let future = inner.call req s in
        if passed then beside l future else at_once (ok too_many_requests) (l, s)

    -- `RateLimitLayer`, with the clock's readings of `check`.
    unfoldable pub rate_limit : ℕ → ℕ → ℕ → Service H S → Service H (RateLimiter F × S)
    rate_limit swept made now inner = record {
      poll_ready = λ (l, s). inner.poll_ready s;
      call = λ req (l, s). elim req.remote [
        | none ↦ beside l (inner.call req s)
        | some remote ↦ limited inner req (check l remote swept made now) s
      ];
    }

    -- The service of a connection.
    unfoldable pub connection :
        ⦃runtime : Runtime⦄
        → ℕ
        → IpAddr
        → ℕ
        → ℕ
        → ℕ
        → ℕ
        → (S → S)
        → Handler H S
        → Service H (RateLimiter F × S)
    connection overall_timeout remote_ip swept made now begun others proxy_request =
        inject_addr remote_ip (
          logging (
            rate_limit swept made now
              (request_timeout overall_timeout begun others (proxy_service proxy_request))))
