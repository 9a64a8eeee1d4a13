-- ===== src/Proxy/Headers.antt =====
-- src/proxy.rs, `strip_hop_by_hop_headers` and the header normalization of `forward_once`.
pub mod Normalized
use Prim.Native.String.{String}
use Prim.Native.String
use l7_proxy.Base.{List, [], ◌∷◌, Option, none, some, string_key}
use l7_proxy.Http.{Http}
use l7_proxy.Errors.{Outcome, ok, ◌>>=◌, unwrap}

abbrev pub hop_by_hop_headers : List String
hop_by_hop_headers =
    "connection" ∷ "keep-alive" ∷ "proxy-authenticate" ∷ "proxy-authorization" ∷ "te" ∷ "trailer"
    ∷ "transfer-encoding" ∷ "upgrade" ∷ []

module _ (H : Http) where
  -- The loop over the names.
  unfoldable pub remove_all : List String → H.HeaderMap → H.HeaderMap
  remove_all [] headers = headers
  remove_all (name ∷ names) headers = remove_all names (H.remove headers name)

  unfoldable pub strip_hop_by_hop_headers : H.HeaderMap → H.HeaderMap
  strip_hop_by_hop_headers headers = remove_all hop_by_hop_headers headers

  abbrev pub bind_option : {A B : Type 0} → Option A → (A → Option B) → Option B
  bind_option none f = none
  bind_option (some a) f = f a

  -- `existing.to_str().unwrap_or("")`
  abbrev text_or_empty : Option String → String
  text_or_empty none = ""
  text_or_empty (some s) = s

  -- The new value of `x-forwarded-for`, of a client whose address reads `ip`.
  unfoldable pub forwarded_for : Option H.Value → String → String
  forwarded_for none ip = ip
  forwarded_for (some existing) ip =
      String.◌++◌ (text_or_empty (H.to_str existing)) (String.◌++◌ ", " ip)

  abbrev pub insert_some : H.HeaderMap → String → Option H.Value → H.HeaderMap
  insert_some headers name none = headers
  insert_some headers name (some v) = H.insert headers name v

  -- The `if let Some(ip)` block: its `unwrap` panics on a text that is no header value.
  unfoldable pub add_forwarded_for : Option String → H.HeaderMap → Outcome H.HeaderMap
  add_forwarded_for none headers = ok headers
  add_forwarded_for (some ip) headers = do
    v ← unwrap (H.from_str (forwarded_for (H.get headers "x-forwarded-for") ip))
    ok (H.insert headers "x-forwarded-for" v)

  -- The original `Host`, as a header value of its own, if it reads as text.
  unfoldable pub forwarded_host : H.HeaderMap → Option H.Value
  forwarded_host headers = bind_option (bind_option (H.get headers "host") H.to_str) H.from_str

  -- The headers that are sent upstream.
  unfoldable pub normalize : H.HeaderMap → String → Option String → Outcome H.HeaderMap
  normalize headers request_id client_ip = do
    id ← unwrap (H.from_str request_id)
    let with_id = H.insert headers "x-request-id" id
    with_for ← add_forwarded_for client_ip with_id
    let with_proto = H.insert with_for "x-forwarded-proto" (H.from_static "http")
    let with_host = insert_some with_proto "x-forwarded-host" (forwarded_host headers)
    ok (strip_hop_by_hop_headers with_host)
