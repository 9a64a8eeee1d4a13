-- ===== src/Server/Drain/Requests.antt =====
-- The end of src/server.rs with the requests that are under way at the signal, each under the overall
-- timeout of src/middleware.rs.
use Prim.Native.String.{String}
use l7_proxy.Base.{
  ℕ, ◌+◌, ◌≤◌, ◌<◌, ◌≡◌, List, Bool, true, some, All, All-imp, All-map, map, arith, from_secs,
}
use l7_proxy.Base.Float.{Float}
use l7_proxy.Http.{Http}
use l7_proxy.Config.{ServerConfig}
use l7_proxy.RateLimiter.{IpAddr}
use l7_proxy.Middleware.Stack.{connected-over}
use l7_proxy.Middleware.Tokio.{Runtime}
use l7_proxy.Server.{State, world, with_world}
use l7_proxy.Server.Drain.{finished, start_server, last_of, start_server-drains}
use l7_proxy.Server.Life.{Visit, handle, serve}

module _ {H : Http} {F : Type 0} ⦃f : Float F⦄ ⦃runtime : Runtime⦄ (hash : String → ℕ)
    (ip_text : IpAddr → String) where
  -- When the client of a request is told, on the state that the request finds.
  abbrev pub told_at : ℕ → Visit H F × State F → ℕ
  told_at overall_timeout (v, s) = (serve hash ip_text overall_timeout v s).0.told

  told_at-le :
      (overall_timeout : ℕ) (v : Visit H F) (s : State F)
      → told_at overall_timeout (v, s) ≤ v.begun + overall_timeout
  unfolding serve
  told_at-le overall_timeout v s =
      connected-over overall_timeout v.remote_ip v.swept v.made v.now v.begun
        (λ t. with_world t (v.others (world t))) (handle hash ip_text v.env) v.req s.rate_limiter s

  -- When hyper's server is done as soon as the requests that were under way at the signal are over,
  -- whatever they are and whatever state they find, and the overall timeout is shorter than the drain
  -- timeout, the server is never forced to end: it ends when the last of their clients is told, or
  -- at the signal if that is later.
  pub start_server-serve :
      (server : ServerConfig F) (toss : Bool) (signal : ℕ) (under_way : List (Visit H F × State F))
      → All (λ p. p.0.begun ≤ signal) under_way
      → server.overall_timeout_secs < server.drain_timeout_secs
      → let ended =
          last_of signal (map (told_at (from_secs server.overall_timeout_secs)) under_way) in
        start_server server toss (some (ended, true)) (some signal) ≡ some (ended, finished true)
  start_server-serve server toss signal under_way begun shorter =
      let overall_timeout = from_secs server.overall_timeout_secs in
      start_server-drains server toss signal (map (told_at overall_timeout) under_way)
        (All-map (λ over. over ≤ signal + overall_timeout) (told_at overall_timeout) under_way
          (All-imp under_way (λ p le. omega (arith, le, told_at-le overall_timeout p.0 p.1)) begun))
        shorter
