-- ===== src/Http/Sample.antt =====
-- An implementation of the interface of src/proxy.rs to hyper, for runs of the model: header maps as
-- association lists, where the first entry of a name counts, and texts for values, URIs and bodies.
use Prim.Native.String.{String}
use l7_proxy.Base.{
  ◌≡◌, refl, List, [], ◌∷◌, none, some, ◌==◌, string_key, if◌then◌else◌, arith, Bool-cases, inl,
  inr, true, subst,
}
use l7_proxy.Http.Text.{is_visible}
use mathlib.Core.Option.{some-injective}
use l7_proxy.Base.Map.{lookup}
use l7_proxy.Http.{Http, HeaderLaws}

abbrev pub Headers : Type 0
Headers = List (String × String)

abbrev pub without : String → Headers → Headers
without k [] = []
without k ((j, v) ∷ m) = let rest = without k m in if j == k then rest else (j, v) ∷ rest

lookup-without :
    (k j : String) (m : Headers) → lookup j (without k m) ≡ (if k == j then none else lookup j m)
lookup-without k j [] = ground arith
lookup-without k j ((i, v) ∷ m) = ground (
  arith,
  lookup-without k j m,
  string_key.agrees_iff k j,
  string_key.agrees_iff i k,
  string_key.agrees_iff i j,
)

abbrev pub sample : Http
sample = record {
  HeaderMap = Headers;
  Value = String;
  Uri = String;
  Body = String;
  get = λ m k. lookup k m;
  insert = λ m k v. (k, v) ∷ m;
  remove = λ m k. without k m;
  no_headers = [];
  to_str = λ v. if is_visible v then some v else none;
  from_str = λ s. if is_visible s then some s else none;
  from_static = λ s. s;
  parse_uri = λ s. some s;
  text = λ s. s;
}

pub sample-HeaderLaws : HeaderLaws sample
sample-HeaderLaws = record {
  get-insert = λ m k j v low low'. refl;
  get-remove = λ m k j low low'. lookup-without k j m;
  from_str_total = λ s visible. (s, rw visible refl);
  to_str_visible = λ v s e. visible_text v s e;
}
  where
    visible_text :
        (v s : String) → (if is_visible v then some v else none) ≡ some s → is_visible s ≡ true
    visible_text v s e = elim (Bool-cases (is_visible v)) [
      | inl visible ↦ subst (λ x. is_visible x ≡ true) (some-injective v s (ground arith)) visible
      | inr hidden ↦ absurd (ground arith)
    ]
