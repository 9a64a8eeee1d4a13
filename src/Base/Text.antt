-- ===== src/Base/Text.antt =====
-- Text: the prefix operations of `str`, and joining.
use Prim.Native.Char.{code}
use Prim.Native.String.{String, [], ◌∷◌, ◌++◌}
use mathlib.Core.Path.{◌≡◌, sym, ◌∙◌, ap, ap₂}
use mathlib.Core.Logic.{inl, inr}
use mathlib.Core.Bool.{Bool, true, false, false≢true}
use mathlib.Core.Option.{Option, none, some}
use native.Mathlib.Omega.{arith}
use text.Mathlib.TextEquality.{Char-path}
use text.Mathlib.TextLemmas.{nil-append, cons-append}
use l7_proxy.Base.Tests.{if◌then◌else◌, nat_beq, nat_beq_iff, Bool-cases, Option-cases}

-- `s.strip_prefix(p)`
abbrev pub strip_prefix : String → String → Option String
strip_prefix [] s = some s
strip_prefix (c ∷ p) [] = none
strip_prefix (c ∷ p) (d ∷ s) = if nat_beq (code c) (code d) then strip_prefix p s else none

abbrev pub is_some {ℓ} : {A : Type ℓ} → Option A → Bool
is_some none = false
is_some (some a) = true

-- `s.starts_with(p)`
abbrev pub starts_with : String → String → Bool
starts_with s p = is_some (strip_prefix p s)

pub strip_prefix-append : (p s : String) → strip_prefix p (p ++ s) ≡ some s
strip_prefix-append [] s = ap some (nil-append s)
strip_prefix-append (c ∷ p) s =
    ap (strip_prefix (c ∷ p)) (cons-append c p s)
    ∙ ground (arith, nat_beq_iff (code c) (code c), strip_prefix-append p s)

pub none≢some {ℓ} : {A : Type ℓ} {t : A} → none ≡ some t → ⊥
none≢some e = cc

-- A prefix that is found is one.
pub strip_prefix_sound : (p s : String) {t : String} → strip_prefix p s ≡ some t → s ≡ p ++ t
strip_prefix_sound [] s {t} e = let e' : s ≡ t = cc in e' ∙ sym (nil-append t)
strip_prefix_sound (c ∷ p) [] e = cc
strip_prefix_sound (c ∷ p) (d ∷ s) {t} e = elim (Bool-cases (nat_beq (code c) (code d))) [
  | inl same ↦
      ap₂ ◌∷◌ (sym (Char-path c d ((nat_beq_iff _ _).0 same)))
        (strip_prefix_sound p s (rw same at e))
      ∙ sym (cons-append c p t)
  | inr other ↦ absurd (none≢some (rw other at e))
]

pub starts_with-append : (p s : String) → starts_with (p ++ s) p ≡ true
starts_with-append p s = ap is_some (strip_prefix-append p s)

pub starts_with_sound : (s p : String) → starts_with s p ≡ true → (t : String) × (s ≡ p ++ t)
starts_with_sound s p h = elim (Option-cases (strip_prefix p s)) [
  | inl e ↦ absurd (false≢true (rw e at h))
  | inr (t, e) ↦ (t, strip_prefix_sound p s e)
]
