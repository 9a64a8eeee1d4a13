-- ===== src/Metrics/Valid.antt =====
-- What the prometheus crate documents of the descriptions that it takes. It rejects all others, and
-- src/metrics.rs unwraps its answer.
use Prim.Native.Char.{code}
use Prim.Native.String.{String}
use l7_proxy.Base.{
  ℕ, List, [], ◌∷◌, Bool, true, false, ◌&&◌, ◌||◌, leb, ltb, nat_beq, any, ◌==◌, string_key,
  if◌then◌else◌,
}
use l7_proxy.Http.Text.{all_codes}

abbrev not_in : String → List String → Bool
not_in s xs = if any (λ x. x == s) xs then false else true

abbrev starts_name : ℕ → Bool
starts_name c = (leb 65 c && leb c 90) || ((leb 97 c && leb c 122) || nat_beq c 95)

abbrev goes_on_name : ℕ → Bool
goes_on_name c = starts_name c || (leb 48 c && leb c 57)

-- `[a-zA-Z_][a-zA-Z0-9_]*`
abbrev is_label_name : String → Bool
is_label_name String.[] = false
is_label_name (String.◌∷◌ c s) = starts_name (code c) && all_codes goes_on_name s

-- `[a-zA-Z_:][a-zA-Z0-9_:]*`
abbrev is_metric_name : String → Bool
is_metric_name String.[] = false
is_metric_name (String.◌∷◌ c s) =
    (starts_name (code c) || nat_beq (code c) 58)
    && all_codes (λ d. goes_on_name d || nat_beq d 58) s

-- Names of labels, none of them twice.
abbrev are_label_names : List String → Bool
are_label_names [] = true
are_label_names (l ∷ ls) = is_label_name l && (not_in l ls && are_label_names ls)

abbrev is_blank : String → Bool
is_blank String.[] = true
is_blank (String.◌∷◌ c s) = false

-- A description has a valid name, a help text, and distinct valid names of labels.
abbrev pub is_described : String → String → List String → Bool
is_described name help labels =
    is_metric_name name && ((if is_blank help then false else true) && are_label_names labels)

-- The buckets of a histogram are strictly increasing, and "le" is the label of their bounds.
abbrev rises_from : ℕ → List ℕ → Bool
rises_from low [] = true
rises_from low (b ∷ bs) = ltb low b && rises_from b bs

abbrev are_buckets : List ℕ → Bool
are_buckets [] = true
are_buckets (b ∷ bs) = rises_from b bs

abbrev pub is_histogram : String → String → List ℕ → List String → Bool
is_histogram name help buckets labels =
    is_described name help labels && (are_buckets buckets && not_in "le" labels)
