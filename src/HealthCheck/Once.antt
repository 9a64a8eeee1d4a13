-- ===== src/HealthCheck/Once.antt =====
-- That the task probes each configured upstream once in a round, and no other.
use Prim.Native.String.{String}
use text.Mathlib.TextEquality.{eq_iff}
use l7_proxy.Base.{
  ◌≡◌, refl, sym, ap, subst, ◌⊎◌, inl, inr, if◌then◌else◌, List, [], ◌∷◌, ◌++◌, Bool, true, false,
  arith, ◌==◌, string_key, Bool-cases, any, In,
}
use l7_proxy.Config.{RouteConfig}
use l7_proxy.HealthCheck.{add_to_set, add_upstreams, collect}
use l7_proxy.HealthCheck.Rounds.{Absent}

-- The text stands in the list, and once.
abbrev pub Once : String → List String → Type 0
Once w us =
    (before : List String) × (after : List String) × (us ≡ before ++ w ∷ after)
    × Absent w before
    × Absent w after

-- Every text of the list stands in it once.
abbrev IsStringSet : List String → Type 0
IsStringSet us = (w : String) → In w us → Once w us

any_is : String → List String → Bool
any_is u us = any (λ w. w == u) us

-- What the test of `add_to_set` says of the list.
Absent-of_any : (u : String) (us : List String) → any (λ w. w == u) us ≡ false → Absent u us
Absent-of_any u [] e = tt
Absent-of_any u (x ∷ us) e = elim (Bool-cases (x == u)) [
  | inl same ↦ absurd (ground arith)
  | inr other ↦ (other, Absent-of_any u us (ground arith))
]

In-of_any : (u : String) (us : List String) → any (λ w. w == u) us ≡ true → In u us
In-of_any u [] e = absurd (ground arith)
In-of_any u (x ∷ us) e = elim (Bool-cases (x == u)) [
  | inl same ↦ inl ((eq_iff x u).0 same)
  | inr other ↦ inr (In-of_any u us (ground arith))
]

Absent-append-right : (w : String) (xs ys : List String) → Absent w (xs ++ ys) → Absent w ys
Absent-append-right w [] ys a = a
Absent-append-right w (x ∷ xs) ys a = Absent-append-right w xs ys a.1

-- A text that is absent is not one of the list.
Absent-not-In : (w : String) (us : List String) → Absent w us → In w us → ⊥
Absent-not-In w [] a h = absurd h
Absent-not-In w (x ∷ us) (other, a) (inl e) = absurd (ground (arith, eq_iff x w))
Absent-not-In w (x ∷ us) (other, a) (inr h) = Absent-not-In w us a h

-- The new text stands before all others.
IsStringSet-cons :
    (u : String) (us : List String) → Absent u us → IsStringSet us → IsStringSet (u ∷ us)
IsStringSet-cons u us a s w (inl e) = subst (λ x. Once x (u ∷ us)) e ([], us, refl, tt, a)
IsStringSet-cons u us a s w (inr h) =
    let (before, after, split, b, c) = s w h in
    (u ∷ before, after, ap (◌∷◌ u) split, (other_than w h, b), c)
  where
    other_than : (w : String) → In w us → (u == w) ≡ false
    other_than w h = elim (Bool-cases (u == w)) [
      | inl same ↦
          absurd (Absent-not-In u us a (subst (λ x. In x us) (sym ((eq_iff u w).0 same)) h))
      | inr other ↦ other
    ]

add_to_set-IsStringSet :
    (u : String) (set : List String) → IsStringSet set → IsStringSet (add_to_set u set)
unfolding add_to_set
add_to_set-IsStringSet u set s = elim (Bool-cases (any (λ w. w == u) set)) [
  | inl old ↦ rw old s
  | inr new ↦ rw new (IsStringSet-cons u set (Absent-of_any u set new) s)
]

In-add_to_set : (u : String) (set : List String) → In u (add_to_set u set)
unfolding add_to_set
In-add_to_set u set = elim (Bool-cases (any (λ w. w == u) set)) [
  | inl old ↦ rw old (In-of_any u set old)
  | inr new ↦ rw new (inl refl)
]

In-add_to_set_old : (u w : String) (set : List String) → In w set → In w (add_to_set u set)
unfolding add_to_set
In-add_to_set_old u w set h = elim (Bool-cases (any (λ x. x == u) set)) [
  | inl old ↦ rw old h
  | inr new ↦ rw new (inr h)
]

-- The set after a list of texts was added.
record Grown (set us grown : List String) : Type 0 where
  unique : IsStringSet grown
  old : (w : String) → In w set → In w grown
  added : (w : String) → In w us → In w grown

add_upstreams-Grown : (set us : List String) → IsStringSet set → Grown set us (add_upstreams set us)
unfolding add_upstreams
add_upstreams-Grown set [] s = record { unique = s; old = λ w h. h; added = λ w h. absurd h }
add_upstreams-Grown set (u ∷ us) s =
    let g = add_upstreams-Grown (add_to_set u set) us (add_to_set-IsStringSet u set s) in
    record {
      unique = g.unique;
      old = λ w h. g.old w (In-add_to_set_old u w set h);
      added = λ w h. elim h [
        | inl e ↦
            subst (λ x. In x (add_upstreams (add_to_set u set) us)) e
              (g.old u (In-add_to_set u set))
        | inr later ↦ g.added w later
      ];
    }

collect-old :
    (set : List String) (rs : List RouteConfig) (w : String)
    → In w set
    → IsStringSet set
    → In w (collect set rs)
unfolding collect
collect-old set [] w h s = h
collect-old set (r ∷ rs) w h s =
    let g = add_upstreams-Grown set r.upstream s in
    collect-old (add_upstreams set r.upstream) rs w (g.old w h) g.unique

collect-IsStringSet :
    (set : List String) (rs : List RouteConfig) → IsStringSet set → IsStringSet (collect set rs)
unfolding collect
collect-IsStringSet set [] s = s
collect-IsStringSet set (r ∷ rs) s =
    collect-IsStringSet (add_upstreams set r.upstream) rs
      (add_upstreams-Grown set r.upstream s).unique

collect-In :
    (set : List String) (rs : List RouteConfig) (r : RouteConfig) (w : String)
    → IsStringSet set
    → In r rs
    → In w r.upstream
    → In w (collect set rs)
unfolding collect
collect-In set [] r w s h k = absurd h
collect-In set (x ∷ rs) r w s (inl e) k =
    let g = add_upstreams-Grown set x.upstream s in
    collect-old (add_upstreams set x.upstream) rs w
      (g.added w (subst (λ y. In w y.upstream) (sym e) k)) g.unique
collect-In set (x ∷ rs) r w s (inr h) k =
    collect-In (add_upstreams set x.upstream) rs r w (add_upstreams-Grown set x.upstream s).unique h
      k

-- A text of the set was added, or was in it before.
add_to_set-from : (u w : String) (set : List String) → In w (add_to_set u set) → (w ≡ u) ⊎ In w set
unfolding add_to_set
add_to_set-from u w set h = elim (Bool-cases (any (λ x. x == u) set)) [
  | inl old ↦ inr (subst (λ b. In w (if b then set else u ∷ set)) old h)
  | inr new ↦ elim (subst (λ b. In w (if b then set else u ∷ set)) new h) [
    | inl e ↦ inl (sym e)
    | inr before ↦ inr before
  ]
]

add_upstreams-from :
    (set us : List String) (w : String) → In w (add_upstreams set us) → In w us ⊎ In w set
unfolding add_upstreams
add_upstreams-from set [] w h = inr h
add_upstreams-from set (u ∷ us) w h = elim (add_upstreams-from (add_to_set u set) us w h) [
  | inl later ↦ inl (inr later)
  | inr here ↦ elim (add_to_set-from u w set here) [
    | inl e ↦ inl (inl (sym e))
    | inr before ↦ inr before
  ]
]

-- The text is an upstream of one of the routes.
abbrev pub IsConfigured : String → List RouteConfig → Type 0
IsConfigured w rs = (r : RouteConfig) × In r rs × In w r.upstream

collect-from :
    (set : List String) (rs : List RouteConfig) (w : String)
    → In w (collect set rs)
    → IsConfigured w rs ⊎ In w set
unfolding collect
collect-from set [] w h = inr h
collect-from set (r ∷ rs) w h = elim (collect-from (add_upstreams set r.upstream) rs w h) [
  | inl (s, listed, k) ↦ inl (s, inr listed, k)
  | inr here ↦ elim (add_upstreams-from set r.upstream w here) [
    | inl k ↦ inl (r, inl refl, k)
    | inr before ↦ inr before
  ]
]

-- The list of the task holds each upstream of each route once, however many routes share it, and
-- nothing else: what stands in it is an upstream of a route.
pub collect-Once :
    (rs : List RouteConfig) (w : String)
    → (IsConfigured w rs → Once w (collect [] rs)) × (In w (collect [] rs) → IsConfigured w rs)
collect-Once rs w =
    let empty : IsStringSet [] = λ x i. absurd i in
    (
      λ (r, h, k). collect-IsStringSet [] rs empty w (collect-In [] rs r w empty h k),
      λ listed. elim (collect-from [] rs w listed) [ inl found ↦ found | inr none ↦ absurd none ],
    )
