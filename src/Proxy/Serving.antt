-- ===== src/Proxy/Serving.antt =====
-- The store of balancers that the routes of src/router.rs point into, and that it can serve them.
use l7_proxy.Base.{
  ℕ, zero, suc, ◌≡◌, refl, inl, inr, List, [], ◌∷◌, some, length, get_elem?, set, In, Option-cases,
}
use l7_proxy.Balancer.{LoadBalancer}
use l7_proxy.Balancer.Ready.{IsReady}
use l7_proxy.Router.{Route}
use l7_proxy.Proxy.World.{World, update_balancer}

module _ {F : Type 0} where
  -- The balancer of a route is in the store, and answers.
  abbrev pub HasBalancer : Route → World F → Type 0
  HasBalancer route w =
      (b : LoadBalancer) × (get_elem? w.balancers route.balancer ≡ some b)
      × IsReady (length route.upstreams) b

  -- So it is for each of the routes.
  abbrev pub Serves : List Route → World F → Type 0
  Serves routes w = (r : Route) → In r routes → HasBalancer r w

-- A balancer that answers whenever the other one does.
abbrev pub AsReady : LoadBalancer → LoadBalancer → Type 0
AsReady b b' = (n : ℕ) → IsReady n b → IsReady n b'

-- What a list of balancers holds at a place, after a write at another or at the same.
get_elem?-set-AsReady :
    (bs : List LoadBalancer) (i j : ℕ) (b b' : LoadBalancer) {c : LoadBalancer}
    → get_elem? bs i ≡ some b
    → AsReady b b'
    → get_elem? bs j ≡ some c
    → (d : LoadBalancer) × (get_elem? (set bs i b') j ≡ some d) × AsReady c d
get_elem?-set-AsReady [] i j b b' e ready f = absurd (cc e)
get_elem?-set-AsReady (x ∷ bs) zero zero b b' {c} e ready f =
    let same : b ≡ c = cc in (b', refl, λ n h. ready n (rw same h))
get_elem?-set-AsReady (x ∷ bs) zero (suc j) b b' {c} e ready f = (c, f, λ n h. h)
get_elem?-set-AsReady (x ∷ bs) (suc i) zero b b' {c} e ready f = (c, f, λ n h. h)
get_elem?-set-AsReady (x ∷ bs) (suc i) (suc j) b b' e ready f =
    get_elem?-set-AsReady bs i j b b' e ready f

module _ {F : Type 0} (routes : List Route) where
  -- A write of a balancer that answers whenever the one before does.
  pub set-Serves :
      (w : World F) (address : ℕ) (b b' : LoadBalancer)
      → get_elem? w.balancers address ≡ some b
      → AsReady b b'
      → Serves routes w
      → Serves routes (record w { balancers = set w.balancers address b' })
  set-Serves w address b b' e ready s r listed =
      let (c, at, can) = s r listed in
      let (d, there, as_ready) =
        get_elem?-set-AsReady w.balancers address r.balancer b b' e ready at in
      (d, there, as_ready (length r.upstreams) can)

  pub update_balancer-Serves :
      (g : LoadBalancer → LoadBalancer) (w : World F) (address : ℕ)
      → ((b : LoadBalancer) → AsReady b (g b))
      → Serves routes w
      → Serves routes (update_balancer g address w)
  update_balancer-Serves g w address ready s = elim (Option-cases (get_elem? w.balancers address)) [
    | inl missing ↦ rw (update_balancer, missing) s
    | inr (b, e) ↦ rw (update_balancer, e) (set-Serves w address b (g b) e (ready b) s)
  ]
