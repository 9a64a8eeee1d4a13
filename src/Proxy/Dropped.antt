-- ===== src/Proxy/Dropped.antt =====
-- What a request of src/proxy.rs has open when its future is dropped, as the timeout layer of
-- src/middleware.rs does: `record_done` comes after an `.await`, without a guard.
pub mod Counters
use Prim.Native.String.{String}
use l7_proxy.Base.{
  ℕ, ◌≡◌, refl, ◌⊎◌, inl, inr, List, ◌∷◌, Bool, false, All, nat_beq, if-both, arith, Option-cases,
}
use l7_proxy.Base.Float.{Float}
use l7_proxy.Http.{Http, Request, Response}
use l7_proxy.Errors.{Outcome, ok, err, panicked}
use l7_proxy.Config.{ServerConfig}
use l7_proxy.Router.{Router, match_route}
use l7_proxy.Proxy.World.{
  Env, World, Run, Suspended, Action, started, finished, ask_health, ask_budget, note_failure,
  note_success, note_request,
}
use l7_proxy.Proxy.Request.{proxy_request}
use l7_proxy.Proxy.Rule.{IsQuiet, Rule, Ended}
use l7_proxy.Proxy.Rule.Requests.{proxy_request-Ended, proxy_request-unmatched}
use l7_proxy.Proxy.Loop.Counts.{tally, is_request, is_duration}

abbrev pub starts_on : ℕ → Action → Bool
starts_on i (started j) = nat_beq i j
starts_on i _ = false

abbrev pub finishes_on : ℕ → Action → Bool
finishes_on i (finished j) = nat_beq i j
finishes_on i _ = false

-- Each `record_start` has been followed by its `record_done`.
abbrev pub Balanced : List Action → Type 0
Balanced log = (i : ℕ) → tally (starts_on i) log ≡ tally (finishes_on i) log

-- All but the last action, which is the start of a call, of the upstream with this index.
pub record Open (log : List Action) : Type 0 where
  pub index : ℕ
  pub before : List Action
  pub latest : log ≡ started index ∷ before
  pub balanced : Balanced before

-- Neither `requests_total` nor `request_duration_seconds` has been moved.
abbrev pub Uncounted : List Action → Type 0
Uncounted log = (tally is_request log ≡ 0) × (tally is_duration log ≡ 0)

-- What holds as a pause begins.
abbrev pub AtPause : {F : Type 0} → Suspended F → Type 0
AtPause s = Uncounted s.log × (Balanced s.log ⊎ Open s.log)

-- Quiet actions change neither.
pub note-Balanced : (a : Action) (log : List Action) → IsQuiet a → Balanced log → Balanced (a ∷ log)
note-Balanced (started j) log quiet h = elim quiet [ ]
note-Balanced (finished j) log quiet h = elim quiet [ ]
note-Balanced (Action.requests_total m r s) log quiet h = elim quiet [ ]
note-Balanced (Action.request_duration m r t) log quiet h = elim quiet [ ]
note-Balanced (Action.retries_total r) log quiet h = h
note-Balanced (Action.errors_total r k) log quiet h = h
note-Balanced (Action.slept t) log quiet h = h

note-Uncounted : (a : Action) (log : List Action) → IsQuiet a → Uncounted log → Uncounted (a ∷ log)
note-Uncounted (started j) log quiet h = elim quiet [ ]
note-Uncounted (finished j) log quiet h = elim quiet [ ]
note-Uncounted (Action.requests_total m r s) log quiet h = elim quiet [ ]
note-Uncounted (Action.request_duration m r t) log quiet h = elim quiet [ ]
note-Uncounted (Action.retries_total r) log quiet h = h
note-Uncounted (Action.errors_total r k) log quiet h = h
note-Uncounted (Action.slept t) log quiet h = h

pub called-Balanced :
    (index : ℕ) (log : List Action) → Balanced log → Balanced (finished index ∷ started index ∷ log)
called-Balanced index log h = λ i. ground (arith, h i)

module _ {H : Http} {F : Type 0} ⦃f : Float F⦄ (hash : String → ℕ) (env : Env H F) where
  -- Between the calls, during one, and when the request has been counted.
  abbrev Between : Run F → Type 0
  Between r = Balanced r.log × Uncounted r.log × All AtPause r.suspended

  abbrev Calling : ℕ → Run F → Type 0
  Calling index r =
      ((before : List Action) × (r.log ≡ started index ∷ before)
        × Balanced before
        × Uncounted before)
      × All AtPause r.suspended

  abbrev Over : Run F → Type 0
  Over r = Balanced r.log × All AtPause r.suspended

  Dropped-Rule : (address : ℕ) → Rule hash env address Between Calling Over
  unfolding ask_health note_failure note_success note_request ask_budget
  Dropped-Rule address = record {
    asked = λ r u h. h;
    failed = λ r u h. h;
    succeeded = λ r u h. h;
    requested = λ r h. h;
    granted = λ r h. h;
    chosen = λ r n key b e h. h;
    told = λ r a quiet (h, none_yet, left).
        (note-Balanced a r.log quiet h, note-Uncounted a r.log quiet none_yet, left);
    counted = λ r method route status took (h, none_yet, left). (h, left);
    slept = λ r (h, none_yet, left). (h, none_yet, ((none_yet, inl h), left));
    started = λ r index (h, none_yet, left). ((r.log, refl, h, none_yet), left);
    done = λ r index waits ((before, latest, h, none_yet), left). (
      rw latest (called-Balanced index before h),
      rw latest none_yet,
      if-both (λ (past : List (Suspended F)). All AtPause past) waits
          (λ waited. (
            (
              rw latest none_yet,
              inr (record { index = index; before = before; latest = latest; balanced = h }),
            ),
            left,
          ))
          (λ at_once. left),
    );
  }

module _ {H : Http} {F A : Type 0} ⦃f : Float F⦄ (hash : String → ℕ) (ip_text : A → String)
    (env : Env H F) where
  -- What a request has open when it ends: only a panic can come during a call.
  abbrev pub AtEnd : List Action → Outcome (Response H) → Type 0
  AtEnd log (ok resp) = Balanced log
  AtEnd log (err e) = Balanced log
  AtEnd log panicked = Balanced log ⊎ Open log

  Ended-AtEnd :
      (address : ℕ) (r : Run F) (result : Outcome (Response H))
      → Ended (Dropped-Rule hash env address) (r, result)
      → All AtPause r.suspended × AtEnd r.log result
  Ended-AtEnd address r (ok resp) (h, left) = (left, h)
  Ended-AtEnd address r (err e) (inl (h, none_yet, left)) = (left, h)
  Ended-AtEnd address r (err e) (inr (h, left)) = (left, h)
  Ended-AtEnd address r panicked (inl (h, none_yet, left)) = (left, inl h)
  Ended-AtEnd address r panicked (inr (index, ((before, latest, h, none_yet), left))) =
      (left, inr (record { index = index; before = before; latest = latest; balanced = h }))

  -- Whenever a request is suspended, and so wherever its future may be dropped, it has called
  -- `record_done` for each call of `record_start` with the same index, but at most for one, which is
  -- then the latest thing that it did, and neither `requests_total` nor `request_duration_seconds`
  -- has counted it. When it returns a response or an error it has called it for
  -- all, and a panic leaves at most that one open.
  pub proxy_request-dropped :
      (server : ServerConfig F) (router : Router) (w : World F) (req : Request H A)
      → let (r, result) = proxy_request hash ip_text env server router w req in
        All AtPause r.suspended × AtEnd r.log result
  proxy_request-dropped server router w req =
      let (r, result) = proxy_request hash ip_text env server router w req in
      elim (Option-cases (match_route router req.path)) [
        | inl missed ↦
            rw (proxy_request-unmatched hash ip_text env server req router w missed)
              (tt, (λ i. refl))
        | inr (route, matched) ↦ Ended-AtEnd route.balancer r result (
            proxy_request-Ended hash ip_text env server req route
              (Dropped-Rule hash env route.balancer) router w matched
              ((λ i. refl), (refl, refl), tt))
      ]
