-- ===== src/Errors.antt =====
-- src/errors.rs: the proxy's errors, their text, and the responses made of them.
use Prim.Native.String.{String}
use l7_proxy.Base.{ℕ, Option, none, some}
use l7_proxy.Http.{Http, Response}

pub data ProxyError : Type 0 where
  upstream_failure upstream_timeout no_route upstream_failed invalid_uri no_upstream : ProxyError

-- `fmt::Display`
unfoldable pub display : ProxyError → String
display upstream_failure = "Upstream failure"
display upstream_timeout = "Upstream timeout"
display no_route = "No route found"
display upstream_failed = "Upstream request failed"
display invalid_uri = "Invalid URI"
display no_upstream = "No upstream available"

module _ (H : Http) where
  -- `Response::builder().status(..).body(Body::from(..)).unwrap()`
  abbrev pub built : ℕ → String → Response H
  built status body = record { status = status; headers = H.no_headers; body = H.text body }

  unfoldable pub into_response : ProxyError → Response H
  into_response upstream_failure = built 502 "Bad Gateway"
  into_response upstream_timeout = built 504 "Gateway Timeout"
  into_response no_route = built 404 "No route found"
  into_response upstream_failed = built 502 "Upstream request failed"
  into_response invalid_uri = built 400 "Invalid URI"
  into_response no_upstream = built 503 "No upstream available"

-- `Result<A, ProxyError>`, or a panic of the task.
pub data Outcome (A : Type 0) : Type 0 where
  ok : A → Outcome A
  err : ProxyError → Outcome A
  panicked : Outcome A

infixl 5 ◌>>=◌
abbrev pub ◌>>=◌ : {A B : Type 0} → Outcome A → (A → Outcome B) → Outcome B
ok a >>= f = f a
err e >>= f = err e
panicked >>= f = panicked

-- `.unwrap()`, and `.map_err(|_| e)?`
abbrev pub unwrap : {A : Type 0} → Option A → Outcome A
unwrap none = panicked
unwrap (some a) = ok a

abbrev pub or_err : {A : Type 0} → Option A → ProxyError → Outcome A
or_err none e = err e
or_err (some a) e = ok a
