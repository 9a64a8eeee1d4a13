-- ===== src/Base/Float.antt =====
-- `f64` as an interface: the operations that the proxy calls. Rounding, infinities and NaN are
-- left to the implementation.
use l7_proxy.Base.Tests.{ltb, leb}
use Prim.Native.Nat.{ℕ, suc, ◌+◌, ◌-◌, ◌*◌, ◌/◌, ◌^◌, ◌≤◌, ◌<◌, min}
use mathlib.Core.Path.{◌≡◌, refl}
use native.Mathlib.Omega.{arith}
use mathlib.Core.Bool.{Bool}

pub record Float (F : Type 0) : Type 0 where
  -- `n as f64`
  pub of_int : ℕ → F
  pub add : F → F → F
  pub sub : F → F → F
  pub mul : F → F → F
  pub div : F → F → F
  pub fmin : F → F → F
  -- `a >= b`, false at NaN
  pub ge : F → F → Bool
  -- `a < b`, false at NaN
  pub lt : F → F → Bool
  -- `x.ceil() as usize`
  pub ceil_usize : F → ℕ
  -- `Duration::as_secs_f64`, of nanoseconds
  pub secs : ℕ → F

-- Below 2 ^ 53 the whole numbers are exact, by IEEE 754; `rate` is a finite, non-negative number.
pub record IsExact (F : Type 0) ⦃f : Float F⦄ (rate : F) : Type 0 where
  pub no_time : f.mul (f.secs 0) rate ≡ f.of_int 0
  pub add_nothing : (n : ℕ) → n < 2 ^ 53 → f.add (f.of_int n) (f.of_int 0) ≡ f.of_int n
  pub fmin_le : (n m : ℕ) → m < 2 ^ 53 → n ≤ m → f.fmin (f.of_int n) (f.of_int m) ≡ f.of_int n
  pub ge_leb : (n m : ℕ) → n < 2 ^ 53 → m < 2 ^ 53 → f.ge (f.of_int n) (f.of_int m) ≡ leb m n
  pub sub_one : (n : ℕ) → n < 2 ^ 53 → f.sub (f.of_int (suc n)) (f.of_int 1) ≡ f.of_int n

-- Whole numbers, with rounding down: an implementation for runs of the model.
instance abbrev pub whole : Float ℕ
whole = record {
  of_int = λ n. n;
  add = ◌+◌;
  sub = ◌-◌;
  mul = ◌*◌;
  div = ◌/◌;
  fmin = min;
  ge = λ a b. leb b a;
  lt = ltb;
  ceil_usize = λ n. n;
  secs = λ n. n / 1_000_000_000;
}

pub whole-IsExact : (rate : ℕ) → IsExact ℕ rate
whole-IsExact rate = record {
  no_time = omega arith;
  add_nothing = λ n h. omega arith;
  fmin_le = λ n m h l. omega arith;
  ge_leb = λ n m h k. refl;
  sub_one = λ n h. omega arith;
}
