-- ===== src/Base/Map.antt =====
-- `std::collections::HashMap` as an association list; no operation shows its order.
use mathlib.Core.Path.{◌≡◌, refl, ◌∙◌, ap, subst}
use mathlib.Core.Logic.{inl, inr}
use mathlib.Core.Bool.{Bool, true, false}
use mathlib.Core.List.{List, [], ◌∷◌}
use mathlib.Core.Option.{Option, none, some}
use native.Mathlib.Omega.{arith}
use l7_proxy.Base.Tests.{Key, ◌==◌, if◌then◌else◌, Bool-cases}

-- `Option::filter`
abbrev pub keep_if {κ} : {V : Type κ} → (V → Bool) → Option V → Option V
keep_if p none = none
keep_if p (some v) = if p v then some v else none

module _ {ℓ κ} {K : Type ℓ} {V : Type κ} ⦃key : Key K⦄ where
  abbrev pub lookup : K → List (K × V) → Option V
  lookup wanted [] = none
  lookup wanted (entry ∷ others) = if entry.0 == wanted then some entry.1 else lookup wanted others

  abbrev pub insert : K → V → List (K × V) → List (K × V)
  insert new value [] = (new, value) ∷ []
  insert new value (entry ∷ others) =
      if entry.0 == new then (new, value) ∷ others else entry ∷ insert new value others

  -- `HashMap::retain` by a test of the value.
  abbrev pub retain_values : (V → Bool) → List (K × V) → List (K × V)
  retain_values p [] = []
  retain_values p ((j, v) ∷ m) = if p v then (j, v) ∷ retain_values p m else retain_values p m

  pub lookup-insert :
      (new wanted : K) (value : V) (entries : List (K × V))
      → lookup wanted (insert new value entries)
        ≡ (if new == wanted then some value else lookup wanted entries)
  lookup-insert new wanted value [] = refl
  lookup-insert new wanted value ((here, held) ∷ others) = ground (
    arith,
    lookup-insert new wanted value others,
    key.agrees_iff here new,
    key.agrees_iff here wanted,
    key.agrees_iff new wanted,
  )

  pub lookup-insert_self : (k : K) (v : V) (m : List (K × V)) → lookup k (insert k v m) ≡ some v
  lookup-insert_self k v m = ground (arith, lookup-insert k k v m, key.agrees_iff k k)

  pub lookup-insert_eq :
      (k j : K) (v : V) (m : List (K × V)) → (k == j) ≡ true → lookup j (insert k v m) ≡ some v
  lookup-insert_eq k j v m h = lookup-insert k j v m ∙ rw h

  pub lookup-insert_ne :
      (k j : K) (v : V) (m : List (K × V)) → (k == j) ≡ false → lookup j (insert k v m) ≡ lookup j m
  lookup-insert_ne k j v m h = lookup-insert k j v m ∙ rw h

  -- No key has two entries.
  abbrev pub Unique : List (K × V) → Type κ
  Unique [] = Unit
  Unique ((j, v) ∷ m) = (lookup j m ≡ none) × Unique m

  pub lookup-retain_values :
      (p : V → Bool) (k : K) (m : List (K × V))
      → Unique m
      → lookup k (retain_values p m) ≡ keep_if p (lookup k m)
  lookup-retain_values p k [] u = refl
  lookup-retain_values p k ((j, v) ∷ m) (new, u) = elim (Bool-cases (j == k)) [
    | inl same ↦
        let gone : lookup k m ≡ none =
          subst (λ x. lookup x m ≡ none) ((key.agrees_iff j k).0 same) new in
        elim (Bool-cases (p v)) [
          | inl stays ↦ rw (stays, same, stays)
          | inr out ↦ rw (out, same, out) (lookup-retain_values p k m u ∙ ap (keep_if p) gone)
        ]
    | inr other ↦ elim (Bool-cases (p v)) [
      | inl stays ↦ rw (stays, other) (lookup-retain_values p k m u)
      | inr out ↦ rw (out, other) (lookup-retain_values p k m u)
    ]
  ]

  pub Unique-retain_values :
      (p : V → Bool) (m : List (K × V)) → Unique m → Unique (retain_values p m)
  Unique-retain_values p [] u = tt
  Unique-retain_values p ((j, v) ∷ m) (new, u) = elim (Bool-cases (p v)) [
    | inl stays ↦
        rw stays (lookup-retain_values p j m u ∙ ap (keep_if p) new, Unique-retain_values p m u)
    | inr out ↦ rw out (Unique-retain_values p m u)
  ]

  pub Unique-insert : (k : K) (v : V) (m : List (K × V)) → Unique m → Unique (insert k v m)
  Unique-insert k v [] u = (refl, tt)
  Unique-insert k v ((j, w) ∷ m) (new, u) = elim (Bool-cases (j == k)) [
    | inl same ↦ rw same (subst (λ x. lookup x m ≡ none) ((key.agrees_iff j k).0 same) new, u)
    | inr other ↦ rw other (
      lookup-insert_ne k j v m (ground (arith, key.agrees_iff j k, key.agrees_iff k j)) ∙ new,
      Unique-insert k v m u,
    )
  ]
