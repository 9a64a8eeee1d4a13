-- ===== src/Http/Text.antt =====
-- The characters of header names and values, for the documented behaviour of the `http` crate.
use Prim.Native.Char.{Char, code}
use Prim.Native.String.{String}
use Prim.Native.String
use Prim.Native.String.append
use l7_proxy.Base.{ℕ, ◌≡◌, Bool, true, ◌&&◌, ◌||◌, leb, ltb, arith}

-- Whether all characters pass a test, by their code points.
abbrev pub all_codes : (ℕ → Bool) → String → Bool
all_codes p String.[] = true
all_codes p (String.◌∷◌ c s) = p (code c) && all_codes p s

-- No letter in upper case, as in the names that the source writes down.
abbrev pub is_lower_case : String → Bool
is_lower_case s = all_codes (λ c. ltb c 65 || ltb 90 c) s

-- Only visible ASCII characters, spaces and tabs.
abbrev pub is_visible : String → Bool
is_visible s = all_codes (λ c. (leb 32 c && ltb c 127) || (leb 9 c && leb c 9)) s

all_codes-append :
    (p : ℕ → Bool) (s t : String)
    → all_codes p s ≡ true
    → all_codes p t ≡ true
    → all_codes p (String.◌++◌ s t) ≡ true
all_codes-append p String.[] t h k = rw (nil t) k
  where
    nil : (t : String) → String.◌++◌ String.[] t ≡ t
    nil t = λ i. append.nil t i
all_codes-append p (String.◌∷◌ c s) t h k =
    rw (cons c s t) (ground (arith, all_codes-append p s t (ground arith) k))
  where
    cons :
        (c : Char) (s t : String) → String.◌++◌ (String.◌∷◌ c s) t ≡ String.◌∷◌ c (String.◌++◌ s t)
    cons c s t = λ i. append.cons c s t i

pub is_visible-append :
    (s t : String) → is_visible s ≡ true → is_visible t ≡ true → is_visible (String.◌++◌ s t) ≡ true
is_visible-append s t h k =
    all_codes-append (λ c. (leb 32 c && ltb c 127) || (leb 9 c && leb c 9)) s t h k
