-- ===== src/MockUpstream/Arguments.antt =====
-- That src/bin/mock_upstream.rs reads the options that it is given, in any order.
use Prim.Native.String.{String}
use l7_proxy.Base.{
  ◌≡◌, refl, ◌∙◌, inl, inr, List, [], ◌∷◌, true, false, some, ◌==◌, string_key, All, Bool-cases,
  Option-cases,
}
use l7_proxy.Base.Map.{lookup}
use l7_proxy.MockUpstream.{position, parse_arg}

-- The arguments that spell some options.
abbrev pub spelled : List (String × String) → List String
spelled [] = []
spelled ((flag, value) ∷ options) = flag ∷ value ∷ spelled options

parse_arg-skip :
    (flag a : String) (args : List String)
    → (a == flag) ≡ false
    → parse_arg (a ∷ args) flag ≡ parse_arg args flag
unfolding parse_arg position
parse_arg-skip flag a args h = elim (Option-cases (position flag args)) [
  | inl absent ↦ rw (parse_arg, position, h, absent) refl
  | inr (i, e) ↦ rw (parse_arg, position, h, e) refl
]

parse_arg-here :
    (flag a value : String) (args : List String)
    → (a == flag) ≡ true
    → parse_arg (a ∷ value ∷ args) flag ≡ some value
unfolding parse_arg position
parse_arg-here flag a value args h = rw (parse_arg, position, h) refl

parse_arg-spelled :
    (flag : String) (options : List (String × String))
    → All (λ option. (option.1 == flag) ≡ false) options
    → parse_arg (spelled options) flag ≡ lookup flag options
parse_arg-spelled flag [] h = unfold parse_arg position in refl
parse_arg-spelled flag ((a, value) ∷ options) (d, h) = elim (Bool-cases (a == flag)) [
  | inl same ↦ rw same (parse_arg-here flag a value (spelled options) same)
  | inr other ↦ rw other (
      parse_arg-skip flag a (value ∷ spelled options) other
      ∙ parse_arg-skip flag value (spelled options) d
      ∙ parse_arg-spelled flag options h)
]

-- When neither the program's name nor the value of an option is the flag itself, what is read for the
-- flag is the value of the first option with that name, or nothing if there is none.
pub parse_arg-lookup :
    (flag program : String) (options : List (String × String))
    → (program == flag) ≡ false
    → All (λ option. (option.1 == flag) ≡ false) options
    → parse_arg (program ∷ spelled options) flag ≡ lookup flag options
parse_arg-lookup flag program options p h =
    parse_arg-skip flag program (spelled options) p ∙ parse_arg-spelled flag options h
