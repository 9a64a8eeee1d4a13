-- ===== src/Base/Decimal.antt =====
-- Numbers as `format!` and `to_string` print them.
use Prim.Native.String.{String, ◌++◌}
use Prim.Native.Nat.{ℕ, zero, suc, ◌%◌, ◌/◌}
use mathlib.Core.List.{[], ◌∷◌}
use l7_proxy.Base.Tests.{ltb, if◌then◌else◌}
use l7_proxy.Base.Lists.{get_or}

-- The decimal digits of a number. The fuel is the number itself, and one.
digits_of : ℕ → ℕ → String
digits_of zero n = ""
digits_of (suc fuel) n =
    let digit =
      get_or ("0" ∷ "1" ∷ "2" ∷ "3" ∷ "4" ∷ "5" ∷ "6" ∷ "7" ∷ "8" ∷ "9" ∷ []) (n % 10) "" in
    let above = digits_of fuel (n / 10) ++ digit in if ltb n 10 then digit else above

unfoldable pub show : ℕ → String
unfolding digits_of
show n = digits_of (suc n) n
