-- ===== src/Proxy/Loop/Told.antt =====
-- What the loop of `proxy_request` tells the client.
use Prim.Native.String.{String}
use l7_proxy.Base.{ℕ, ◌<◌, ◌≡◌, refl, ◌⊎◌, inl, inr, List, [], false, Option}
use l7_proxy.Base.Float.{Float}
use l7_proxy.Http.{Http, Response}
use l7_proxy.Errors.{ProxyError, upstream_failure, upstream_timeout, Outcome, ok, err, panicked}
use l7_proxy.Proxy.World.{Env, Run, Action}
use l7_proxy.Proxy.Attempt.{Plan, is_server_error, forward_once}
use l7_proxy.Proxy.Request.{or_failure, run_loop}
use l7_proxy.Proxy.Rounds.{
  Fails, server_error, refused, late, pool, Selected, Rounds, begin, skip, fails, Ends, gives_up,
  serves, panics,
}
use l7_proxy.Proxy.Loop.{run_loop-Ends}

module _ {H : Http} {F : Type 0} (env : Env H F) (plan : Plan H) where
  -- What stands behind the error of a failed request: its last attempt, if it made any.
  abbrev pub Explained : ProxyError → Type 0
  Explained e =
      (e ≡ upstream_failure)
      ⊎ ((n : ℕ) × (u : String) × (e ≡ upstream_timeout)
          × (n < plan.max_attempts)
          × (forward_once env plan n u ≡ err upstream_timeout))

  -- What stands behind each result.
  abbrev pub Told : Outcome (Response H) → Type 0
  Told (ok resp) =
      (n : ℕ) × (o : ℕ) × (u : String) × (n < plan.max_attempts)
      × (o < pool env plan)
      × Selected env plan o u
      × (forward_once env plan n u ≡ ok resp)
      × (is_server_error resp.status ≡ false)
  Told (err e) = Explained e
  Told panicked =
      (n : ℕ) × (u : String) × (n < plan.max_attempts) × (forward_once env plan n u ≡ panicked)

  Explained-Fails :
      {x : Outcome (Response H)} {kind : String} {e : ProxyError} (n : ℕ) (u : String)
      → n < plan.max_attempts
      → forward_once env plan n u ≡ x
      → Fails x kind e
      → Explained e
  Explained-Fails n u lt e (server_error bad) = inl refl
  Explained-Fails n u lt e refused = inl refl
  Explained-Fails n u lt e late = inr (n, u, refl, lt, e)

  Rounds-Explained :
      {o a : ℕ} {l : Option ProxyError} {log : List Action}
      → Rounds env plan o a l log
      → Explained (or_failure l)
  Rounds-Explained begin = inl refl
  Rounds-Explained (skip r) = Rounds-Explained r
  Rounds-Explained (fails {a = a} {u = u} r more s f) = Explained-Fails a u more refl f

  Ends-Told :
      {log : List Action} {result : Outcome (Response H)} → Ends env plan log result → Told result
  Ends-Told (gives_up took r le) = Rounds-Explained r
  Ends-Told (serves {o = o} {a = a} {u = u} took r lt more s e fine) =
      (a, o, u, more, lt, s, e, fine)
  Ends-Told (panics {a = a} {u = u} r lt more s e) = (a, u, more, e)

  -- From an empty log, the client is given a response only as one of the pool's upstreams gave it, and never one with
  -- a status of 500 to 599. It is given a timeout only when an attempt timed out, and otherwise
  -- the upstream failure. A panic is one of `forward_once`.
  pub run_loop-Told : ⦃f : Float F⦄ (r : Run F) → r.log ≡ [] → Told (run_loop env plan r).1
  run_loop-Told r e = Ends-Told (run_loop-Ends env plan r e)
