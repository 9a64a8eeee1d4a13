-- ===== src/Middleware/Stack.antt =====
-- What a client of a connection is told, through all layers.
use Prim.Native.String.{String}
use l7_proxy.Base.{
  ℕ, ◌+◌, ◌≤◌, ◌≡◌, refl, sym, subst, ap, ◌∙◌, ◌⊎◌, inl, inr, Bool, true, false, some, arith, All,
  All-imp, All-map, Bool-cases,
}
use l7_proxy.Base.Float.{Float}
use l7_proxy.Http.{Http, Request, Response}
use l7_proxy.Errors.{Outcome, ok, err, panicked, into_response}
use l7_proxy.RateLimiter.{IpAddr, RateLimiter, check}
use l7_proxy.Proxy.Request.Total.{IsCalm}
use l7_proxy.Middleware.Tower.{ready, Future, Handler, Service, over}
use l7_proxy.Middleware.Tokio.{InTime, Late, Runtime}
use l7_proxy.Middleware.{
  answered, proxy_service, logging, request_timed_out, timed, request_timeout, inject_addr,
  too_many_requests, limited, rate_limit, connection,
}
use l7_proxy.Middleware.Deadline.{timed-TimedCases, over-timed, timed-suspended, over-beside}

module _ {H : Http} where
  -- A response with no header.
  abbrev pub plain : ℕ → String → Response H
  plain status body = record { status = status; headers = H.no_headers; body = H.text body }

  -- The response to a client that the limiter refuses.
  abbrev pub refusal : Response H
  refusal = record {
    status = 429;
    headers = H.insert H.no_headers "retry-after" (H.from_static "1");
    body = H.text "Rate limit exceeded";
  }

  -- A response of the proxy, or one with a status of 502 or 504 and its text.
  abbrev pub FromProxy : Outcome (Response H) → Response H → Type 0
  FromProxy result resp =
      (result ≡ ok resp) ⊎ (resp ≡ plain 502 "Bad Gateway") ⊎ (resp ≡ plain 504 "Gateway Timeout")

  answered-FromProxy :
      (result : Outcome (Response H))
      → IsCalm result
      → (resp : Response H) × (answered H result ≡ ok resp) × FromProxy result resp
  unfolding answered into_response
  answered-FromProxy (ok resp) h = (resp, refl, inl refl)
  answered-FromProxy (err e) (inl h) = (into_response H e, refl, inr (inl (ap (into_response H) h)))
  answered-FromProxy (err e) (inr h) = (into_response H e, refl, inr (inr (ap (into_response H) h)))
  answered-FromProxy panicked h = elim h [ ]

  module _ {F S : Type 0} ⦃f : Float F⦄ ⦃runtime : Runtime⦄ (overall_timeout : ℕ)
      (remote_ip : IpAddr) (swept made now begun : ℕ) (others : S → S) (inner : Handler H S)
      (req : Request H IpAddr) (l : RateLimiter F) (s : S) where
    -- The request as it reaches the proxy.
    abbrev pub seen : Request H IpAddr
    seen = record req { remote = some remote_ip }

    -- The service of the connection, its call, and that of the proxy.
    abbrev pub service : Service H (RateLimiter F × S)
    service = connection H overall_timeout remote_ip swept made now begun others inner

    abbrev pub connected : Future H (RateLimiter F × S)
    connected = service.call req (l, s)

    abbrev pub proxied : Future H S
    proxied = inner seen s

    -- What the response says, and what the state is, by the limiter's answer.
    abbrev pub Said : Bool → Response H → S → Type 0
    Said false resp s' = (resp ≡ refusal) × (s' ≡ s)
    Said true resp s' =
        (InTime (begun + overall_timeout) proxied.suspended
          × FromProxy proxied.result resp
          × (s' ≡ proxied.state))
        ⊎ ((left : S) × Late (begun + overall_timeout) proxied.suspended left
            × (resp ≡ plain 504 "Request timed out")
            × (s' ≡ others left))

    -- What reaches the timeout.
    abbrev under_way : Future H S
    under_way = record proxied { result = answered H proxied.result }

    timed-Said :
        IsCalm proxied.result
        → let fut = timed H (begun + overall_timeout) others under_way in
          (resp : Response H) × (s' : S) × (fut.result ≡ ok resp)
          × (fut.state ≡ s')
          × Said true resp s'
    timed-Said calm = elim (timed-TimedCases (begun + overall_timeout) others under_way) [
      | inl (e, in_time) ↦
          let (resp, told, from) = answered-FromProxy proxied.result calm in
          (
            resp,
            proxied.state,
            ap (λ fut. fut.result) e ∙ told,
            ap (λ fut. fut.state) e,
            inl (in_time, from, refl),
          )
      | inr (left, late, told, state) ↦
          (request_timed_out H, others left, told, state, inr (left, late, refl, refl))
    ]

    -- By the overall timeout after the call the connection's future is done, however it ends.
    pub connected-over : over begun connected.suspended ≤ begun + overall_timeout
    unfolding connection inject_addr logging rate_limit limited request_timeout proxy_service
    connected-over = elim (Bool-cases (check l remote_ip swept made now).0) [
      | inl passed ↦ rw passed (
          subst (λ n. n ≤ begun + overall_timeout) (sym (over-beside _ begun _))
            (over-timed (begun + overall_timeout) others under_way begun (omega arith)))
      | inr refused ↦ rw refused (unfold over in omega arith)
    ]

    connected-told :
        IsCalm proxied.result
        → (resp : Response H) × (s' : S) × (connected.result ≡ ok resp)
          × (connected.state ≡ ((check l remote_ip swept made now).1, s'))
          × Said (check l remote_ip swept made now).0 resp s'
    unfolding connection inject_addr logging rate_limit limited request_timeout proxy_service
    connected-told calm = elim (Bool-cases (check l remote_ip swept made now).0) [
      | inl passed ↦
          let (resp, s', e, state, said) = timed-Said calm in
          rw passed (resp, s', e, ap (λ t. ((check l remote_ip swept made now).1, t)) state, said)
      | inr refused ↦ rw refused (too_many_requests H, s, refl, refl, (refl, refl))
    ]

    pub connection-Said :
        IsCalm proxied.result
        → (resp : Response H) × (s' : S) × (service.poll_ready (l, s) ≡ ready)
          × (connected.result ≡ ok resp)
          × (connected.state ≡ ((check l remote_ip swept made now).1, s'))
          × (over begun connected.suspended ≤ begun + overall_timeout)
          × Said (check l remote_ip swept made now).0 resp s'
    unfolding connection inject_addr logging rate_limit limited request_timeout proxy_service
    connection-Said calm =
        let (resp, s', e, state, said) = connected-told calm in
        (resp, s', refl, e, state, connected-over, said)

    -- A pause of the connection's call is one of the proxy's, and the limiter has been asked before.
    pub connected-suspended :
        (R : S → Type 0)
        → All (λ p. R p.1) proxied.suspended
        → All (λ p. (p.1.0 ≡ (check l remote_ip swept made now).1) × R p.1.1) connected.suspended
    unfolding connection inject_addr logging rate_limit limited request_timeout proxy_service
    connected-suspended R h = elim (Bool-cases (check l remote_ip swept made now).0) [
      | inl passed ↦ rw passed (
          All-map (λ p. (p.1.0 ≡ (check l remote_ip swept made now).1) × R p.1.1) _ _
            (All-imp _ (λ p r. (refl, r))
              (timed-suspended (begun + overall_timeout) others under_way R h)))
      | inr refused ↦ rw refused tt
    ]
