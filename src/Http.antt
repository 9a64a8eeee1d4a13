-- ===== src/Http.antt =====
-- What the proxy uses of hyper and of the `http` crate: headers, URIs and bodies are parameters.
pub mod Text
pub mod Sample
use Prim.Native.String.{String}
use l7_proxy.Base.{ℕ, ◌≡◌, Option, none, some, if◌then◌else◌, ◌==◌, string_key, true}
use l7_proxy.Http.Text.{is_lower_case, is_visible}

pub record Http : Type 1 where
  pub HeaderMap : Type 0
  -- `HeaderValue`
  pub Value : Type 0
  pub Uri : Type 0
  pub Body : Type 0
  pub get : HeaderMap → String → Option Value
  pub insert : HeaderMap → String → Value → HeaderMap
  pub remove : HeaderMap → String → HeaderMap
  pub no_headers : HeaderMap
  -- `HeaderValue::to_str().ok()` and `HeaderValue::from_str(..).ok()`
  pub to_str : Value → Option String
  pub from_str : String → Option Value
  -- `HeaderValue::from_static`, of a constant that is a header value
  pub from_static : String → Value
  -- `str::parse::<Uri>().ok()`
  pub parse_uri : String → Option Uri
  -- `Body::from`, of a text
  pub text : String → Body

-- The documented behaviour of `HeaderMap`: `insert` replaces all values of a name, `remove` takes
-- them away, and neither touches another name. Names are the same without regard to case, so this is
-- said of names in lower case. And that of `HeaderValue`: a text of visible ASCII characters is one,
-- and `to_str` yields only such a text.
pub record HeaderLaws (H : Http) : Type 0 where
  pub get-insert :
      (m : H.HeaderMap) (k j : String) (v : H.Value)
      → is_lower_case k ≡ true
      → is_lower_case j ≡ true
      → H.get (H.insert m k v) j ≡ (if k == j then some v else H.get m j)
  pub get-remove :
      (m : H.HeaderMap) (k j : String)
      → is_lower_case k ≡ true
      → is_lower_case j ≡ true
      → H.get (H.remove m k) j ≡ (if k == j then none else H.get m j)
  pub from_str_total : (s : String) → is_visible s ≡ true → (v : H.Value) × (H.from_str s ≡ some v)
  pub to_str_visible : (v : H.Value) (s : String) → H.to_str v ≡ some s → is_visible s ≡ true

module _ (H : Http) where
  pub record Response : Type 0 where
    pub status : ℕ
    pub headers : H.HeaderMap
    pub body : H.Body

  -- A request as it reaches `proxy_request`: the parts of its URI that are read, and the address
  -- that `InjectAddrService` has put into the extensions.
  pub record Request (A : Type 0) : Type 0 where
    pub method : String
    pub path : String
    pub path_and_query : Option String
    pub headers : H.HeaderMap
    pub body : H.Body
    pub remote : Option A

  -- A request to an upstream.
  pub record Outgoing : Type 0 where
    pub method : String
    pub uri : H.Uri
    pub headers : H.HeaderMap
    pub body : H.Body

  -- What a call of the client under a timeout comes to.
  pub data Answer : Type 0 where
    responded : Response → Answer
    broken : Answer
    elapsed : Answer
