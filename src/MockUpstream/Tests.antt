-- ===== src/MockUpstream/Tests.antt =====
-- A command line of src/bin/mock_upstream.rs, and what is read from it.
use Prim.Native.String.{String}
use l7_proxy.Base.{ℕ, ◌≡◌, refl, List, [], ◌∷◌, some, ◌==◌, string_key, if◌then◌else◌}
use l7_proxy.Base.Float.{whole}
use l7_proxy.MockUpstream.{position, parse_arg, Parse, main, handler, app}
use l7_proxy.MockUpstream.Arguments.{spelled}

abbrev options : List (String × String)
options = ("--delay-ms", "20") ∷ ("--port", "9001") ∷ []

abbrev numbers : Parse ℕ
numbers = record {
  u16 = λ text. some (if text == "9001" then 9001 else 0);
  u64 = λ text. some (if text == "20" then 20 else 0);
  usize = λ text. some (if text == "256" then 256 else 0);
  f64 = λ text. some 0;
}

main_default_body :
    main numbers ("mock" ∷ spelled options)
    ≡ some (9001, record { delay_ms = 20; body_size = 256; fail_rate = 0 })
unfolding main parse_arg position
main_default_body = refl

app_never_fails :
    app {F = ℕ} (record { delay_ms = 20; body_size = 256; fail_rate = 0 }) "/users" 0
    ≡ record { after_ms = 20; status = 200; length = 256 }
unfolding app handler
app_never_fails = refl
