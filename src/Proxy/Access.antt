-- ===== src/Proxy/Access.antt =====
-- The accesses of all tasks to the shared state of src/proxy.rs, one at a time: each is a call under a
-- lock or on an atomic. What all of them keep.
pub mod Segments
pub mod Answered
pub mod Interleaved
use Prim.Native.String.{String}
use l7_proxy.Base.{
  ℕ, ◌≤◌, from_secs, true, ◌≡◌, refl, sym, subst, ◌∙◌, inl, inr, arith, List, ◌++◌, some, get_elem?,
  set, All, All-imp, Option-cases, get_elem?-append_left,
}
use l7_proxy.Base.Float.{Float}
use l7_proxy.Http.{Http, Request}
use l7_proxy.Config.{ServerConfig}
use l7_proxy.Balancer.{LoadBalancer, record_start, record_done, next_index_for_key}
use l7_proxy.Balancer.Ready.{next_index_for_key-IsReady, record_start-IsReady, record_done-IsReady}
use l7_proxy.Health.{is_healthy, record_failure, record_success}
use l7_proxy.Health.Breaker.{
  IsValid, is_healthy-IsValid, record_failure-IsValid, record_success-IsValid, SameSettings,
  is_healthy-SameSettings, record_failure-SameSettings, record_success-SameSettings,
}
use l7_proxy.RetryBudget.{instant_reach_secs, has_cutoff, record_request, allow_retry}
use l7_proxy.Router.{Route, Router}
use l7_proxy.Proxy.World.{World, Env, update_balancer}
use l7_proxy.Proxy.Request.{proxy_request}
use l7_proxy.Proxy.Serving.{Serves, set-Serves, update_balancer-Serves}

module _ {F : Type 0} where
  -- The settings of the tracker and of the budget are the same.
  pub record SameLimits (w v : World F) : Type 0 where
    pub health : SameSettings w.health v.health
    pub percent : v.budget.budget_percent ≡ w.budget.budget_percent
    pub window : v.budget.window ≡ w.budget.window

  -- The window of the budget is no longer than instants reach back.
  abbrev pub InReach : World F → Type 0
  InReach w = w.budget.window ≤ from_secs instant_reach_secs

  pub InReach-SameLimits : {w v : World F} → SameLimits w v → InReach w → InReach v
  InReach-SameLimits same h = subst (λ n. n ≤ from_secs instant_reach_secs) (sym same.window) h

  pub has_cutoff-InReach : (w : World F) (now : ℕ) → InReach w → has_cutoff w.budget now ≡ true
  unfolding has_cutoff
  has_cutoff-InReach w now h = ground arith

  update_balancer-health :
      (g : LoadBalancer → LoadBalancer) (w : World F) (address : ℕ)
      → (update_balancer g address w).health ≡ w.health
  update_balancer-health g w address = elim (Option-cases (get_elem? w.balancers address)) [
    | inl missing ↦ rw (update_balancer, missing) refl
    | inr (b, e) ↦ rw (update_balancer, e) refl
  ]

  update_balancer-SameLimits :
      (g : LoadBalancer → LoadBalancer) (w : World F) (address : ℕ)
      → SameLimits w (update_balancer g address w)
  update_balancer-SameLimits g w address = elim (Option-cases (get_elem? w.balancers address)) [
    | inl missing ↦ rw (update_balancer, missing) same
    | inr (b, e) ↦
        rw (update_balancer, e) (record { health = (refl, refl); percent = refl; window = refl })
  ]
    where
      same : SameLimits w w
      same = record { health = (refl, refl); percent = refl; window = refl }

  pub SameLimits-trans : {w v u : World F} → SameLimits w v → SameLimits v u → SameLimits w u
  SameLimits-trans first last = record {
    health = (last.health.0 ∙ first.health.0, last.health.1 ∙ first.health.1);
    percent = last.percent ∙ first.percent;
    window = last.window ∙ first.window;
  }

module _ {F : Type 0} ⦃f : Float F⦄ (hash : String → ℕ) where
  -- One access, by a request, by the prober or by a reload.
  pub data Access : World F → World F → Type 0 where
    asks :
        (w : World F) (u : String) (now : ℕ)
        → Access w (record w { health = (is_healthy w.health u now).1 })
    fails :
        (w : World F) (u : String) (now : ℕ)
        → Access w (record w { health = record_failure w.health u now })
    succeeds :
        (w : World F) (u : String) → Access w (record w { health = record_success w.health u })
    requests :
        (w : World F) (now : ℕ) → Access w (record w { budget = record_request w.budget now })
    retries :
        (w : World F) (now later : ℕ)
        → Access w (record w { budget = (allow_retry w.budget now later).1 })
    starts :
        (w : World F) (index address : ℕ)
        → Access w (update_balancer (λ b. record_start b index) address w)
    returns :
        (w : World F) (index address : ℕ)
        → Access w (update_balancer (λ b. record_done b index) address w)
    chooses :
        (w : World F) (address n : ℕ) (key : String) (b : LoadBalancer)
        → get_elem? w.balancers address ≡ some b
        → Access w
            (record w { balancers = set w.balancers address (next_index_for_key hash b n key).1 })
    reloads :
        (w : World F) (added : List LoadBalancer)
        → Access w (record w { balancers = w.balancers ++ added })

  -- Any number of accesses, by any tasks.
  pub data Accesses (w : World F) : World F → Type 0 where
    unchanged : Accesses w w
    then_access : {v u : World F} → Accesses w v → Access v u → Accesses w u

  pub Accesses-trans : {w v u : World F} → Accesses w v → Accesses v u → Accesses w u
  Accesses-trans h unchanged = h
  Accesses-trans h (then_access k a) = then_access (Accesses-trans h k) a

  -- An access keeps the balancers of any routes in the store and ready.
  Access-Serves :
      (routes : List Route) {w v : World F} → Access w v → Serves routes w → Serves routes v
  Access-Serves routes (asks w u now) s = s
  Access-Serves routes (fails w u now) s = s
  Access-Serves routes (succeeds w u) s = s
  Access-Serves routes (requests w now) s = s
  Access-Serves routes (retries w now later) s = s
  Access-Serves routes (starts w index address) s =
      update_balancer-Serves routes _ w address (λ b n. record_start-IsReady b n index) s
  Access-Serves routes (returns w index address) s =
      update_balancer-Serves routes _ w address (λ b n. record_done-IsReady b n index) s
  Access-Serves routes (chooses w address n key b e) s =
      set-Serves routes w address b _ e (λ m. next_index_for_key-IsReady hash b n m key) s
  Access-Serves routes (reloads w added) s = λ r listed.
      let (b, at, ready) = s r listed in
      (b, get_elem?-append_left w.balancers added r.balancer at, ready)

  pub Accesses-Serves :
      (routes : List Route) {w v : World F} → Accesses w v → Serves routes w → Serves routes v
  Accesses-Serves routes unchanged s = s
  Accesses-Serves routes (then_access h a) s = Access-Serves routes a (Accesses-Serves routes h s)

  Access-SameLimits : {w v : World F} → Access w v → SameLimits w v
  Access-SameLimits (asks w u now) = record {
    health = is_healthy-SameSettings w.health u now;
    percent = refl;
    window = refl;
  }
  Access-SameLimits (fails w u now) = record {
    health = record_failure-SameSettings w.health u now;
    percent = refl;
    window = refl;
  }
  Access-SameLimits (succeeds w u) = record {
    health = record_success-SameSettings w.health u;
    percent = refl;
    window = refl;
  }
  Access-SameLimits (requests w now) = record {
    health = (refl, refl);
    percent = unfold record_request in refl;
    window = unfold record_request in refl;
  }
  Access-SameLimits (retries w now later) = record {
    health = (refl, refl);
    percent = unfold allow_retry in ground arith;
    window = unfold allow_retry in ground arith;
  }
  Access-SameLimits (starts w index address) = update_balancer-SameLimits _ w address
  Access-SameLimits (returns w index address) = update_balancer-SameLimits _ w address
  Access-SameLimits (chooses w address n key b e) = record {
    health = (refl, refl);
    percent = refl;
    window = refl;
  }
  Access-SameLimits (reloads w added) = record {
    health = (refl, refl);
    percent = refl;
    window = refl;
  }

  pub Accesses-SameLimits : {w v : World F} → Accesses w v → SameLimits w v
  Accesses-SameLimits unchanged = record { health = (refl, refl); percent = refl; window = refl }
  Accesses-SameLimits (then_access h a) =
      SameLimits-trans (Accesses-SameLimits h) (Access-SameLimits a)

  Access-IsValid : {w v : World F} → Access w v → IsValid w.health → IsValid v.health
  Access-IsValid (asks w u now) h = is_healthy-IsValid w.health u now h
  Access-IsValid (fails w u now) h = record_failure-IsValid w.health u now h
  Access-IsValid (succeeds w u) h = record_success-IsValid w.health u h
  Access-IsValid (requests w now) h = h
  Access-IsValid (retries w now later) h = h
  Access-IsValid (starts w index address) h =
      subst IsValid (sym (update_balancer-health _ w address)) h
  Access-IsValid (returns w index address) h =
      subst IsValid (sym (update_balancer-health _ w address)) h
  Access-IsValid (chooses w address n key b e) h = h
  Access-IsValid (reloads w added) h = h

  pub Accesses-IsValid : {w v : World F} → Accesses w v → IsValid w.health → IsValid v.health
  Accesses-IsValid unchanged h = h
  Accesses-IsValid (then_access k a) h = Access-IsValid a (Accesses-IsValid k h)

  -- If the access asks the budget, the beginning of its window is an instant: the subtraction of
  -- `allow_retry` does not panic.
  abbrev Subtracts : {w v : World F} → Access w v → Type 0
  Subtracts (asks w u now) = Unit
  Subtracts (fails w u now) = Unit
  Subtracts (succeeds w u) = Unit
  Subtracts (requests w now) = Unit
  Subtracts (retries w now later) = has_cutoff w.budget now ≡ true
  Subtracts (starts w index address) = Unit
  Subtracts (returns w index address) = Unit
  Subtracts (chooses w address n key b e) = Unit
  Subtracts (reloads w added) = Unit

  abbrev pub AllSubtract : {w v : World F} → Accesses w v → Type 0
  AllSubtract unchanged = Unit
  AllSubtract (then_access h a) = AllSubtract h × Subtracts a

  Access-Subtracts : {w v : World F} → (a : Access w v) → InReach w → Subtracts a
  Access-Subtracts (asks w u now) h = tt
  Access-Subtracts (fails w u now) h = tt
  Access-Subtracts (succeeds w u) h = tt
  Access-Subtracts (requests w now) h = tt
  Access-Subtracts (retries w now later) h = has_cutoff-InReach w now h
  Access-Subtracts (starts w index address) h = tt
  Access-Subtracts (returns w index address) h = tt
  Access-Subtracts (chooses w address n key b e) h = tt
  Access-Subtracts (reloads w added) h = tt

  pub Accesses-AllSubtract : {w v : World F} → (made : Accesses w v) → InReach w → AllSubtract made
  Accesses-AllSubtract unchanged h = tt
  Accesses-AllSubtract (then_access made a) h = (
    Accesses-AllSubtract made h,
    Access-Subtracts a (InReach-SameLimits (Accesses-SameLimits made) h),
  )
