-- ===== src/Middleware/Tests.antt =====
-- A request that the limiter refuses, and an example of what is proved of a connection.
use l7_proxy.Base.{ℕ, [], ◌∷◌, none, true, suc}
use l7_proxy.Base.Float.{whole}
use l7_proxy.Http.{Request}
use l7_proxy.Http.Sample.{sample}
use l7_proxy.Errors.{err, upstream_timeout}
use l7_proxy.RateLimiter.{IpAddr, RateLimiter}
use l7_proxy.Middleware.Tower.{Handler}
use l7_proxy.Middleware.Tokio.Sample.{tokio}

abbrev client : IpAddr
client = IpAddr.v4 7

abbrev limiter : RateLimiter ℕ
limiter = record {
  buckets = [];
  capacity = 2;
  refill_rate = 1;
  enabled = true;
  cleanup_counter = 0;
}

-- It counts the requests that reach it, pauses until the instant 40, and answers each with a timeout.
abbrev inner : Handler sample ℕ
inner req s = record { result = err upstream_timeout; state = suc s; suspended = (40, s) ∷ [] }

abbrev req : Request sample IpAddr
req = record {
  method = "GET";
  path = "/";
  path_and_query = none;
  headers = [];
  body = "";
  remote = none;
}
