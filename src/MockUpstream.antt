-- ===== src/MockUpstream.antt =====
-- src/bin/mock_upstream.rs: the arguments of the mock upstream, and how it answers. Parsing numbers is
-- the standard library's.
pub mod Arguments
mod Tests
use Prim.Native.String.{String}
use mathlib.Core.Option
use l7_proxy.Base.{
  ℕ, zero, suc, ◌+◌, List, [], ◌∷◌, Bool, true, false, Option, none, some, ◌==◌, string_key,
  get_elem?, if◌then◌else◌, ltb,
}
use l7_proxy.Base.Float.{Float}

-- `Iterator::position`
unfoldable pub position : String → List String → Option ℕ
position flag [] = none
position flag (a ∷ args) = if a == flag then some 0 else Option.map suc (position flag args)

-- The value behind the first occurrence of a flag.
unfoldable pub parse_arg : List String → String → Option String
parse_arg args flag = elim (position flag args) [ none ↦ none | some i ↦ get_elem? args (suc i) ]

-- `str::parse` at the types that are used; `none` is an error.
pub record Parse (F : Type 0) : Type 0 where
  pub u16 : String → Option ℕ
  pub u64 : String → Option ℕ
  pub usize : String → Option ℕ
  pub f64 : String → Option F

-- The body is `b'x'` so many times.
pub record AppConfig (F : Type 0) : Type 0 where
  pub delay_ms : ℕ
  pub body_size : ℕ
  pub fail_rate : F

infixl 5 ◌>>=◌
abbrev pub ◌>>=◌ : {A B : Type 0} → Option A → (A → Option B) → Option B
none >>= f = none
some a >>= f = f a

abbrev pub unwrap_or : Option String → String → String
unwrap_or none d = d
unwrap_or (some s) d = s

-- `main` up to the bound port, with the configuration of the server; `none` is a panic.
unfoldable pub main : {F : Type 0} → Parse F → List String → Option (ℕ × AppConfig F)
main p args = do
  port_text ← parse_arg args "--port"
  port ← p.u16 port_text
  delay_ms ← p.u64 (unwrap_or (parse_arg args "--delay-ms") "0")
  body_size ← p.usize (unwrap_or (parse_arg args "--body-size") "256")
  fail_rate ← p.f64 (unwrap_or (parse_arg args "--fail-rate") "0.0")
  some (port, record { delay_ms = delay_ms; body_size = body_size; fail_rate = fail_rate })

-- An answer: after so many milliseconds, a status and the length of the body.
pub record Reply : Type 0 where
  pub after_ms : ℕ
  pub status : ℕ
  pub length : ℕ

module _ {F : Type 0} ⦃f : Float F⦄ where
  -- `handler`, with the random number that it draws.
  unfoldable pub handler : AppConfig F → F → Reply
  handler c roll =
      if f.lt (f.of_int 0) c.fail_rate
      then if f.lt roll c.fail_rate
        then record { after_ms = 0; status = 500; length = 5 }
        else record { after_ms = c.delay_ms; status = 200; length = c.body_size }
      else record { after_ms = c.delay_ms; status = 200; length = c.body_size }

  -- The routes: `/health`, and the fallback.
  unfoldable pub app : AppConfig F → String → F → Reply
  app c path roll =
      if path == "/health"
      then record { after_ms = 0; status = 200; length = 2 }
      else handler c roll
