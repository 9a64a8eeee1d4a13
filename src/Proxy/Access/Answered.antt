-- ===== src/Proxy/Access/Answered.antt =====
-- That a request of src/proxy.rs is answered without a panic, on whichever path and whatever the others
-- do in its pauses.
use Prim.Native.String.{String}
use l7_proxy.Base.{ℕ}
use l7_proxy.Base.Float.{Float}
use l7_proxy.Http.{Http, HeaderLaws, Request}
use l7_proxy.Config.{ServerConfig}
use l7_proxy.Router.{Router}
use l7_proxy.Router.Longest.{match_route-In}
use l7_proxy.Proxy.World.{World, Env}
use l7_proxy.Proxy.Request.{proxy_request}
use l7_proxy.Proxy.Request.Total.{IsCalm, Sendable, proxy_request_total}
use l7_proxy.Proxy.Serving.{Serves}
use l7_proxy.Proxy.Access.{Accesses, Accesses-Serves, InReach, AllSubtract, Accesses-AllSubtract}
use l7_proxy.Proxy.Access.Segments.{proxy_request-Accesses}

module _ {H : Http} {F A : Type 0} ⦃f : Float F⦄ (hash : String → ℕ) (ip_text : A → String)
    (env : Env H F) where
  -- The request is answered, with a response or one of the two errors of an upstream, and not by a
  -- panic, and in what it and the others do until then the budget is only asked where the subtraction
  -- of its window from the clock does not panic. This holds when the balancers of all routes are ready
  -- at its start, the others change the shared state only by accesses, the budget's window is at most
  -- 2 ^ 63 seconds, header maps and values behave as documented, and the request id and the text of
  -- the client's address are of visible ASCII characters.
  pub proxy_request-answered :
      (server : ServerConfig F) (router : Router) (w : World F) (req : Request H A)
      → HeaderLaws H
      → ((n : ℕ) (v : World F) → Accesses hash v (env.across n v))
      → Serves router.routes w
      → InReach w
      → Sendable hash ip_text env req
      → let (r, result) = proxy_request hash ip_text env server router w req in
        IsCalm result × ((made : Accesses hash w r.world) × AllSubtract hash made)
  proxy_request-answered server router w req laws across serves reach sends =
      let (made, _, _) = proxy_request-Accesses hash ip_text env server router w req across in
      (
        proxy_request_total hash ip_text env server router w req laws
            (λ route matched.
              Accesses-Serves hash router.routes (across 0 w) serves route
                (match_route-In router req.path matched))
            sends,
        (made, Accesses-AllSubtract hash made reach),
      )
