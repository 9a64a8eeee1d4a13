-- ===== src/Proxy/Dropped/Counters.antt =====
-- What a request of src/proxy.rs does to a counter of a least-connections balancer, whichever pause
-- its future is dropped at.
use Prim.Native.String.{String}
use l7_proxy.Base.{
  ℕ, zero, suc, ◌<◌, ◌≡◌, refl, ◌∙◌, ◌⊎◌, inl, inr, List, [], ◌∷◌, some, All, nat_beq,
  if◌then◌else◌, if-both, arith, get_elem?, set, get_or, length, u64_mod,
}
use l7_proxy.Base.Float.{Float}
use l7_proxy.Http.{Http, Request, Response}
use l7_proxy.Errors.{Outcome, ok, err, panicked}
use l7_proxy.Config.{ServerConfig}
use l7_proxy.Balancer.Least
use l7_proxy.Balancer.Least.{LeastConnections}
use l7_proxy.Balancer.InFlight.{record_start-active, record_done-active}
use l7_proxy.Balancer.{LoadBalancer, lc, record_start, record_done, next_index, next_index_for_key}
use l7_proxy.Router.{Route, Router, match_route}
use l7_proxy.Proxy.World.{
  Env, World, Run, Suspended, Action, started, update_balancer, ask_health, ask_budget,
  note_failure, note_success, note_request,
}
use l7_proxy.Proxy.Request.{proxy_request}
use l7_proxy.Proxy.Rule.{Rule, Ended}
use l7_proxy.Proxy.Rule.Requests.{proxy_request-Ended}
use l7_proxy.Proxy.Dropped.{Balanced, note-Balanced, called-Balanced}

get_elem?-set_self :
    {A : Type 0} (xs : List A) (i : ℕ) {x : A} (y : A)
    → get_elem? xs i ≡ some x
    → get_elem? (set xs i y) i ≡ some y
get_elem?-set_self [] i y e = absurd (cc e)
get_elem?-set_self (x ∷ xs) zero y e = refl
get_elem?-set_self (x ∷ xs) (suc i) y e = get_elem?-set_self xs i y e

-- What a counter of the upstream `i` is, with a call of the upstream `index` on top.
abbrev pub with_call : ℕ → ℕ → ℕ → ℕ
with_call i index n = if nat_beq index i then suc n else n

module _ {F : Type 0} (address i : ℕ) where
  -- At the address is a least-connections balancer, whose counter of the upstream `i` is `n`.
  abbrev pub Reads : World F → ℕ → Type 0
  Reads w n =
      (b : LeastConnections) × (get_elem? w.balancers address ≡ some (lc b))
      × (i < length b.active)
      × (get_or b.active i 0 ≡ n)

  updated :
      (g : LoadBalancer → LoadBalancer) (w : World F) {b : LoadBalancer}
      → get_elem? w.balancers address ≡ some b
      → get_elem? (update_balancer g address w).balancers address ≡ some (g b)
  updated g w {b} e = rw (update_balancer, e) (get_elem?-set_self w.balancers address (g b) e)

  record_start-Reads :
      (index n : ℕ) (w : World F)
      → suc n < u64_mod
      → Reads w n
      → Reads (update_balancer (λ b. record_start b index) address w) (with_call i index n)
  unfolding record_start
  record_start-Reads index n w small (b, at, inside, e) = (
    Least.record_start b index,
    updated (λ c. record_start c index) w at,
    omega (arith, Least.length-record_start b index),
    record_start-active b index i inside ∙ ground arith,
  )

  record_done-Reads :
      (index n : ℕ) (w : World F)
      → suc n < u64_mod
      → Reads w (with_call i index n)
      → Reads (update_balancer (λ b. record_done b index) address w) n
  unfolding record_done
  record_done-Reads index n w small (b, at, inside, e) = (
    Least.record_done b index,
    updated (λ c. record_done c index) w at,
    omega (arith, Least.length-record_done b index),
    record_done-active b index i inside ∙ ground arith,
  )

  chosen-Reads :
      (hash : String → ℕ) (n m : ℕ) (key : String) (w : World F) (c : LoadBalancer)
      → get_elem? w.balancers address ≡ some c
      → Reads w n
      → Reads
          (record w { balancers = set w.balancers address (next_index_for_key hash c m key).1 })
          n
  unfolding next_index_for_key next_index Least.next_index
  chosen-Reads hash n m key w c here (b, at, inside, e) =
      let same : c ≡ lc b = cc in
      (b, rw same (get_elem?-set_self w.balancers address (lc b) at), inside, e)

module _ {H : Http} {F : Type 0} ⦃f : Float F⦄ (hash : String → ℕ) (env : Env H F)
    (address i n : ℕ) where
  -- What holds as a pause begins: no call is open and the counter is `n`, or one is, and it is counted.
  abbrev pub Counted : Suspended F → Type 0
  Counted s =
      (Balanced s.log × Reads address i s.world n)
      ⊎ ((index : ℕ) × (before : List Action) × (s.log ≡ started index ∷ before)
          × Balanced before
          × Reads address i s.world (with_call i index n))

  abbrev Between : Run F → Type 0
  Between r = Balanced r.log × Reads address i r.world n × All Counted r.suspended

  abbrev Calling : ℕ → Run F → Type 0
  Calling index r =
      ((before : List Action) × (r.log ≡ started index ∷ before) × Balanced before)
      × Reads address i r.world (with_call i index n)
      × All Counted r.suspended

  Counters-Rule :
      suc n < u64_mod
      → ((k m : ℕ) (w : World F) → Reads address i w m → Reads address i (env.across k w) m)
      → Rule hash env address Between Calling Between
  unfolding ask_health note_failure note_success note_request ask_budget
  Counters-Rule small others = record {
    asked = λ r u h. h;
    failed = λ r u h. h;
    succeeded = λ r u h. h;
    requested = λ r h. h;
    granted = λ r h. h;
    chosen = λ r m key b e (log, count, left).
        (log, chosen-Reads address i hash n m key r.world b e count, left);
    told = λ r a quiet (log, count, left). (note-Balanced a r.log quiet log, count, left);
    counted = λ r method route status took h. h;
    slept =
        λ r (log, count, left). (log, others r.pauses n r.world count, (inl (log, count), left));
    started = λ r index (log, count, left).
        ((r.log, refl, log), record_start-Reads address i index n r.world small count, left);
    done = λ r index waits ((before, latest, log), count, left). (
      rw latest (called-Balanced index before log),
      record_done-Reads address i index n _ small (
          if-both (λ (w : World F). Reads address i w (with_call i index n)) waits
            (λ waited. others r.pauses (with_call i index n) r.world count) (λ at_once. count)),
      if-both (λ (past : List (Suspended F)). All Counted past) waits
          (λ waited. (inr (index, before, latest, log, count), left)) (λ at_once. left),
    );
  }

  -- The counter when the request has ended: after a panic a call may still be counted.
  abbrev pub CountedAtEnd : World F → Outcome (Response H) → Type 0
  CountedAtEnd w (ok resp) = Reads address i w n
  CountedAtEnd w (err e) = Reads address i w n
  CountedAtEnd w panicked =
      Reads address i w n ⊎ ((index : ℕ) × Reads address i w (with_call i index n))

  Ended-Counted :
      (rule : Rule hash env address Between Calling Between) (r : Run F)
      (result : Outcome (Response H))
      → Ended rule (r, result)
      → All Counted r.suspended × CountedAtEnd r.world result
  Ended-Counted rule r (ok resp) (log, count, left) = (left, count)
  Ended-Counted rule r (err e) (inl (log, count, left)) = (left, count)
  Ended-Counted rule r (err e) (inr (log, count, left)) = (left, count)
  Ended-Counted rule r panicked (inl (log, count, left)) = (left, inl count)
  Ended-Counted rule r panicked (inr (index, (log, count, left))) = (left, inr (index, count))

-- A request on a route with a least-connections balancer, while all others leave its counter of the
-- upstream `i` as it is: at each pause that is in a call of this upstream the counter is one higher
-- than before the request, and so it stays when the future is dropped there; at each other pause it
-- is the same, and so it is when the request has ended with a response or an error.
pub proxy_request-Counted :
    {H : Http} {F A : Type 0} ⦃f : Float F⦄ (hash : String → ℕ) (ip_text : A → String)
    (env : Env H F) (server : ServerConfig F) (router : Router) (w : World F) (req : Request H A)
    (route : Route) (i n : ℕ)
    → match_route router req.path ≡ some route
    → Reads route.balancer i w n
    → suc n < u64_mod
    → ((k m : ℕ) (v : World F)
        → Reads route.balancer i v m
        → Reads route.balancer i (env.across k v) m)
    → let (r, result) = proxy_request hash ip_text env server router w req in
      All (Counted hash env route.balancer i n) r.suspended
      × CountedAtEnd hash env route.balancer i n r.world result
proxy_request-Counted hash ip_text env server router w req route i n matched count small others =
    let rule = Counters-Rule hash env route.balancer i n small others in
    let (r, result) = proxy_request hash ip_text env server router w req in
    Ended-Counted hash env route.balancer i n rule r result (
      proxy_request-Ended hash ip_text env server req route rule router w matched
        ((λ j. refl), count, tt))
