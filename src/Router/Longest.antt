-- ===== src/Router/Longest.antt =====
-- What `match_route` selects.
use Prim.Native.String.{String, len}
use Prim.Native.String
use mathlib.Core.List.{head-eq_of_cons-eq, tail-eq_of_cons-eq, nil≢cons}
use mathlib.Core.Bool.{false≢true}
use mathlib.Core.Option.{some-injective}
use l7_proxy.Base.{
  ◌≤◌, ◌<◌, ◌≡◌, refl, sym, ap, ap₂, subst, ◌∙◌, ◌↔◌, inl, inr, List, [], ◌∷◌, ◌++◌, Bool, true,
  none, some, arith, leb, leb→le, Bool-cases, Option-cases, if◌then◌else◌, retain, In, All,
  In-middle,
}
use l7_proxy.Base.Text.{starts_with, starts_with-append, starts_with_sound, none≢some}
use l7_proxy.Router.{Route, Router, longest_of, longest, match_route}

-- The prefix of `r` begins the path.
abbrev pub Serves : String → Route → Type 0
Serves path r = (rest : String) × (path ≡ String.◌++◌ r.prefix rest)

-- The list is `before`, `r` and `after`, where nothing before is longer and all after is shorter.
record Split (r : Route) (rs before after : List Route) : Type 0 where
  whole : rs ≡ before ++ r ∷ after
  lower : All (λ s. len s.prefix ≤ len r.prefix) before
  shorter : All (λ s. len s.prefix < len r.prefix) after

abbrev Splits : Route → List Route → Type 0
Splits r rs = (before : List Route) × (after : List Route) × Split r rs before after

Splits-keep :
    (best r l : Route) (rs : List Route)
    → len r.prefix < len best.prefix
    → len best.prefix ≤ len l.prefix
    → Splits l (best ∷ rs)
    → Splits l (best ∷ r ∷ rs)
Splits-keep best r l rs lt le ([], after, s) =
    let same : best ≡ l = cc in
    let tail : rs ≡ after = tail-eq_of_cons-eq s.whole in
    ([], r ∷ after, record { whole = cc; lower = tt; shorter = (omega arith, s.shorter) })
Splits-keep best r l rs lt le (b ∷ before, after, s) =
    let same : best ≡ b = head-eq_of_cons-eq s.whole in
    let tail : rs ≡ before ++ l ∷ after = tail-eq_of_cons-eq s.whole in
    (
      best ∷ r ∷ before,
      after,
      record { whole = cc; lower = (le, (omega arith, s.lower.1)); shorter = s.shorter },
    )

-- A fold from `best` ends in such a split, at a prefix no shorter than `best`'s.
abbrev Top : Route → List Route → Route → Type 0
Top best rs l = Splits l (best ∷ rs) × (len best.prefix ≤ len l.prefix)

longest_of-step :
    (best r : Route) (rs : List Route) {b : Bool}
    → leb (len best.prefix) (len r.prefix) ≡ b
    → longest_of (if b then r else best) rs ≡ longest_of best (r ∷ rs)
unfolding longest_of
longest_of-step best r rs e = rw e

longest_of-Top : (best : Route) (rs : List Route) → Top best rs (longest_of best rs)
longest_of-Top best [] =
    unfold longest_of in (([], [], record { whole = refl; lower = tt; shorter = tt }), omega arith)
longest_of-Top best (r ∷ rs) = elim (Bool-cases (leb (len best.prefix) (len r.prefix))) [
  | inl le ↦
      let ((before, after, s), more) = longest_of-Top r rs in
      subst (Top best (r ∷ rs)) (longest_of-step best r rs le) (
        (
          best ∷ before,
          after,
          record {
            whole = ap (◌∷◌ best) s.whole;
            lower = (omega (arith, leb→le _ _ le), s.lower);
            shorter = s.shorter;
          },
        ),
        omega (arith, leb→le _ _ le),
      )
  | inr gt ↦
      let (split, more) = longest_of-Top best rs in
      subst (Top best (r ∷ rs)) (longest_of-step best r rs gt)
        (Splits-keep best r (longest_of best rs) rs (ground arith) more split, more)
]

-- A split of the routes that pass a test, as a split of all routes.
record Origin (p : Route → Bool) (rs before after : List Route) (l : Route) : Type 0 where
  front : List Route
  back : List Route
  whole : rs ≡ front ++ l ∷ back
  front_passing : retain p front ≡ before
  back_passing : retain p back ≡ after
  passes : p l ≡ true

-- The first route passes: it is the one selected, or it stands before it.
retain-Origin_cons :
    (p : Route → Bool) (x : Route) (rs before after : List Route) (l : Route)
    → p x ≡ true
    → x ∷ retain p rs ≡ before ++ l ∷ after
    → ((bs : List Route) → retain p rs ≡ bs ++ l ∷ after → Origin p rs bs after l)
    → Origin p (x ∷ rs) before after l
retain-Origin_cons p x rs [] after l h e ih =
    let same : x ≡ l = head-eq_of_cons-eq e in
    record {
      front = [];
      back = rs;
      whole = cc;
      front_passing = refl;
      back_passing = tail-eq_of_cons-eq e;
      passes = cc;
    }
retain-Origin_cons p x rs (y ∷ bs) after l h e ih =
    let o = ih bs (tail-eq_of_cons-eq e) in
    let same : x ≡ y = head-eq_of_cons-eq e in
    record {
      front = x ∷ o.front;
      back = o.back;
      whole = ap (◌∷◌ x) o.whole;
      front_passing = rw h (ap₂ ◌∷◌ same o.front_passing);
      back_passing = o.back_passing;
      passes = o.passes;
    }

retain-Origin :
    (p : Route → Bool) (rs before after : List Route) (l : Route)
    → retain p rs ≡ before ++ l ∷ after
    → Origin p rs before after l
retain-Origin p [] [] after l e = absurd (nil≢cons e)
retain-Origin p [] (x ∷ before) after l e = absurd (nil≢cons e)
retain-Origin p (x ∷ rs) before after l e = elim (Bool-cases (p x)) [
  | inl here ↦
      retain-Origin_cons p x rs before after l here (rw here at e)
        (λ bs. retain-Origin p rs bs after l)
  | inr out ↦
      let o = retain-Origin p rs before after l (rw out at e) in
      record {
        front = x ∷ o.front;
        back = o.back;
        whole = ap (◌∷◌ x) o.whole;
        front_passing = rw out o.front_passing;
        back_passing = o.back_passing;
        passes = o.passes;
      }
]

Serves-starts_with : (path : String) (r : Route) → Serves path r → starts_with path r.prefix ≡ true
Serves-starts_with path r (t, e) =
    subst (λ q. starts_with q r.prefix ≡ true) (sym e) (starts_with-append r.prefix t)

-- What holds of the routes that pass a test holds of each route that serves the path.
All-Serves :
    (path : String) (P : Route → Type 0) (rs : List Route)
    → All P (retain (λ r. starts_with path r.prefix) rs)
    → (s : Route) → In s rs
    → Serves path s
    → P s
All-Serves path P [] a s h v = absurd h
All-Serves path P (x ∷ rs) a s h v = elim (Bool-cases (starts_with path x.prefix)) [
  | inl here ↦
      let a' : P x × All P (retain (λ r. starts_with path r.prefix) rs) = rw here at a in
      elim h [ inl e ↦ subst P e a'.0 | inr later ↦ All-Serves path P rs a'.1 s later v ]
  | inr out ↦ elim h [
    | inl e ↦
        absurd (false≢true (sym out ∙ Serves-starts_with path x (subst (Serves path) (sym e) v)))
    | inr later ↦ All-Serves path P rs (rw out at a) s later v
  ]
]

-- `r` is what the table is to select for a path: a route that serves it, with the longest prefix,
-- and the last one of that length.
pub record IsLongest (routes : List Route) (path : String) (r : Route) : Type 0 where
  pub before : List Route
  pub after : List Route
  pub whole : routes ≡ before ++ r ∷ after
  pub serves : Serves path r
  pub lower : (s : Route) → In s before → Serves path s → len s.prefix ≤ len r.prefix
  pub shorter : (s : Route) → In s after → Serves path s → len s.prefix < len r.prefix

longest-Splits : (rs : List Route) {r : Route} → longest rs ≡ some r → Splits r rs
unfolding longest
longest-Splits [] e = absurd (none≢some e)
longest-Splits (x ∷ xs) e =
    subst (λ l. Splits l (x ∷ xs)) (some-injective _ _ e) (longest_of-Top x xs).0

-- A route that is found is the longest one that serves the path, the last among equals.
pub match_route-IsLongest :
    (router : Router) (path : String) {r : Route}
    → match_route router path ≡ some r
    → IsLongest router.routes path r
unfolding match_route
match_route-IsLongest router path {r} e =
    let (before, after, s) = longest-Splits _ e in
    let o = retain-Origin (λ r. starts_with path r.prefix) router.routes before after r s.whole in
    record {
      before = o.front;
      after = o.back;
      whole = o.whole;
      serves = starts_with_sound path r.prefix o.passes;
      lower = All-Serves path _ o.front (rw o.front_passing s.lower);
      shorter = All-Serves path _ o.back (rw o.back_passing s.shorter);
    }

longest-eq-none : (rs : List Route) → longest rs ≡ none → rs ≡ []
unfolding longest
longest-eq-none [] e = refl
longest-eq-none (x ∷ xs) e = cc

-- A route that is found is one of the table.
pub match_route-In :
    (router : Router) (path : String) {r : Route}
    → match_route router path ≡ some r
    → In r router.routes
match_route-In router path {r} e =
    let best = match_route-IsLongest router path e in
    subst (In r) (sym best.whole) (In-middle best.before r best.after)

-- No route is found exactly when none serves the path.
pub match_route-eq-none_iff :
    (router : Router) (path : String)
    → (match_route router path ≡ none) ↔ ((r : Route) → In r router.routes → ¬ Serves path r)
unfolding match_route
match_route-eq-none_iff router path = (
  λ e. All-Serves path (λ _. ⊥) router.routes (rw (longest-eq-none _ e) tt),
  λ h. elim (Option-cases (match_route router path)) [
    | inl e ↦ e
    | inr (r, e) ↦
        let l = match_route-IsLongest router path e in
        absurd (h r (rw l.whole (In-middle l.before r l.after)) l.serves)
  ],
)
