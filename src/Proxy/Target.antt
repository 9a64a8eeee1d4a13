-- ===== src/Proxy/Target.antt =====
-- src/proxy.rs: the path that is forwarded, and the URI it makes with an upstream.
use Prim.Native.Char.{Char, code}
use Prim.Native.String.{String, [], ◌∷◌, ◌++◌}
use text.Mathlib.TextLemmas.{nil-append, cons-append, append-nil, append_assoc, append_cancel_left}
use mathlib.Core.Option
use mathlib.Core.Option.{some-injective}
use l7_proxy.Base.{
  ◌≡◌, refl, sym, ap, ◌∙◌, ◌↔◌, Bool, false, ◌||◌, Option, none, some, nat_beq, if◌then◌else◌,
}
use l7_proxy.Base.Text.{strip_prefix, strip_prefix-append}

-- `path_and_query().map(..).unwrap_or("/")`
abbrev pub or_root : Option String → String
or_root none = "/"
or_root (some s) = s

-- `strip_prefix(..).unwrap_or(&original_path)`
abbrev pub or_whole : Option String → String → String
or_whole none original = original
or_whole (some s) original = s

abbrev pub or_slash : String → String
or_slash [] = "/"
or_slash (c ∷ s) = c ∷ s

unfoldable pub stripped_path : String → String → String
stripped_path prefix original = or_whole (strip_prefix prefix original) original

unfoldable pub final_path : String → Option String → String
final_path prefix path_and_query = or_slash (stripped_path prefix (or_root path_and_query))

-- `format!("{}{}", upstream, final_path)`
unfoldable pub new_uri : String → String → String
new_uri upstream path = upstream ++ path

-- Where the authority of a URI ends (RFC 3986, 3.2).
abbrev pub is_delimiter : Char → Bool
is_delimiter c = nat_beq (code c) b'/' || nat_beq (code c) b'?' || nat_beq (code c) b'#'

-- What stands before the first delimiter: the authority, of what follows `scheme://`.
pub authority : String → String
authority [] = []
authority (c ∷ s) = if is_delimiter c then [] else c ∷ authority s

abbrev pub NoDelimiter : String → Type 0
NoDelimiter [] = Unit
NoDelimiter (c ∷ s) = (is_delimiter c ≡ false) × NoDelimiter s

authority-append :
    (host rest : String) → NoDelimiter host → authority (host ++ rest) ≡ host ++ authority rest
unfolding authority
authority-append [] rest h = ap authority (nil-append rest) ∙ sym (nil-append (authority rest))
authority-append (c ∷ host) rest h =
    ap authority (cons-append c host rest)
    ∙ rw h.0 (ap (◌∷◌ c) (authority-append host rest h.1))
    ∙ sym (cons-append c host (authority rest))

authority-or_slash : (s : String) → authority (or_slash s) ≡ authority s
unfolding authority
authority-or_slash [] = refl
authority-or_slash (c ∷ s) = refl

-- The part of the target behind the route's prefix is what is forwarded.
pub stripped_path-append : (prefix rest : String) → stripped_path prefix (prefix ++ rest) ≡ rest
unfolding stripped_path
stripped_path-append prefix rest =
    ap (λ o. or_whole o (prefix ++ rest)) (strip_prefix-append prefix rest)

-- The authority of a URI that begins with `scheme`, such as `http://`.
abbrev pub authority_after : String → String → Option String
authority_after scheme uri = Option.map authority (strip_prefix scheme uri)

-- The authority that a forwarded request names, for an upstream `scheme` and `host` and a target
-- that begins with the route's prefix: the host, and then whatever the request puts behind the
-- prefix up to the next delimiter.
pub authority-new_uri :
    (scheme host prefix rest : String)
    → NoDelimiter host
    → authority_after scheme (new_uri (scheme ++ host) (final_path prefix (some (prefix ++ rest))))
      ≡ some (host ++ authority rest)
unfolding new_uri final_path
authority-new_uri scheme host prefix rest h =
    let path = final_path prefix (some (prefix ++ rest)) in
    ap (authority_after scheme) (append_assoc scheme host path)
    ∙ ap (Option.map authority) (strip_prefix-append scheme (host ++ path))
    ∙ ap some (
        authority-append host path h
        ∙ ap (λ s. host ++ s)
            (authority-or_slash _ ∙ ap authority (stripped_path-append prefix rest)))

-- For an upstream whose host holds no delimiter, and a target that begins with the route's prefix,
-- the forwarded URI names the upstream's host as its authority exactly when nothing, or a delimiter,
-- follows the prefix.
pub stays_on_upstream_iff :
    (scheme host prefix rest : String)
    → NoDelimiter host
    → (authority_after scheme (new_uri (scheme ++ host) (final_path prefix (some (prefix ++ rest))))
        ≡ some host)
      ↔ (authority rest ≡ [])
stays_on_upstream_iff scheme host prefix rest h = (
  λ e. append_cancel_left host (authority rest) [] (
      some-injective _ _ (sym (authority-new_uri scheme host prefix rest h) ∙ e)
      ∙ sym (append-nil host)),
  λ e.
      authority-new_uri scheme host prefix rest h
      ∙ ap some (ap (λ s. host ++ s) e ∙ append-nil host),
)
