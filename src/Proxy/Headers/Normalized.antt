-- ===== src/Proxy/Headers/Normalized.antt =====
-- What each header of the forwarded request is, name by name.
use Prim.Native.String.{String}
use Prim.Native.String
use text.Mathlib.TextEquality.{eq_iff}
use l7_proxy.Base.{
  ◌≡◌, refl, ap, subst, ◌∙◌, inl, inr, List, [], ◌∷◌, Bool, true, false, ◌||◌, Option, none, some,
  if◌then◌else◌, ◌==◌, string_key, Bool-cases, Option-cases, any, All, arith,
}
use l7_proxy.Http.{Http, HeaderLaws}
use l7_proxy.Http.Text.{is_lower_case, is_visible, is_visible-append}
use l7_proxy.Errors.{ok}
use l7_proxy.Proxy.Headers.{
  hop_by_hop_headers, remove_all, strip_hop_by_hop_headers, forwarded_for, add_forwarded_for,
  forwarded_host, normalize, insert_some,
}

-- Whether a name, in lower case, is hop-by-hop.
abbrev pub is_hop_by_hop : String → Bool
is_hop_by_hop n =
    any (λ name. name == n)
      ("connection" ∷ "keep-alive" ∷ "proxy-authenticate" ∷ "proxy-authorization" ∷ "te" ∷ "trailer"
        ∷ "transfer-encoding" ∷ "upgrade" ∷ [])

-- The address of the client, if there is one, is a text of visible characters.
abbrev pub IsPlain : Option String → Type 0
IsPlain none = Unit
IsPlain (some ip) = is_visible ip ≡ true

either {ℓ} :
    {A : Type ℓ} (a b : Bool) (o : Option A)
    → (if b then none else (if a then none else o)) ≡ (if a || b then none else o)
either true true o = refl
either true false o = refl
either false true o = refl
either false false o = refl

module _ (H : Http) (laws : HeaderLaws H) where
  get-remove_all :
      (names : List String) (headers : H.HeaderMap) (n : String)
      → All (λ name. is_lower_case name ≡ true) names
      → is_lower_case n ≡ true
      → H.get (remove_all H names headers) n
        ≡ (if any (λ name. name == n) names then none else H.get headers n)
  unfolding remove_all
  get-remove_all [] headers n low h = refl
  get-remove_all (name ∷ names) headers n (here, low) h =
      get-remove_all names (H.remove headers name) n low h
      ∙ rw (laws.get-remove headers name n here h)
          (either (name == n) (any (λ x. x == n) names) (H.get headers n))

  get-strip_hop_by_hop_headers :
      (headers : H.HeaderMap) (n : String)
      → is_lower_case n ≡ true
      → H.get (strip_hop_by_hop_headers H headers) n
        ≡ (if is_hop_by_hop n then none else H.get headers n)
  unfolding strip_hop_by_hop_headers
  get-strip_hop_by_hop_headers headers n low =
      get-remove_all hop_by_hop_headers headers n
        (refl, (refl, (refl, (refl, (refl, (refl, (refl, (refl, tt)))))))) low

  -- The specification of `x-forwarded-for`: the client's address stands at the end of the chain that
  -- came with the request, of which a value that does not read as text counts as the empty text.
  abbrev readable : Option String → String
  readable none = ""
  readable (some text) = text

  abbrev pub chained : Option H.Value → String → String
  chained none ip = ip
  chained (some old) ip = String.◌++◌ (readable (H.to_str old)) (String.◌++◌ ", " ip)

  abbrev pub expected_for : H.HeaderMap → Option String → Option H.Value
  expected_for headers none = H.get headers "x-forwarded-for"
  expected_for headers (some ip) = H.from_str (chained (H.get headers "x-forwarded-for") ip)

  -- That of `x-forwarded-host`: the text of `host`, and what came with the request if there is none.
  abbrev text_or : Option String → Option H.Value → Option H.Value
  text_or none came = came
  text_or (some text) came = H.from_str text

  abbrev host_or : Option H.Value → Option H.Value → Option H.Value
  host_or none came = came
  host_or (some host) came = text_or (H.to_str host) came

  abbrev pub expected_host : H.HeaderMap → Option H.Value
  expected_host headers = host_or (H.get headers "host") (H.get headers "x-forwarded-host")

  -- The specification, name by name.
  abbrev expected_beside : H.HeaderMap → String → Option String → String → Option H.Value
  expected_beside headers request_id client n =
      if "x-forwarded-host" == n
      then expected_host headers
      else if "x-forwarded-proto" == n
      then some (H.from_static "http")
      else if "x-forwarded-for" == n
      then expected_for headers client
      else if "x-request-id" == n
      then H.from_str request_id
      else H.get headers n

  abbrev pub expected : H.HeaderMap → String → Option String → String → Option H.Value
  expected headers request_id client n =
      if is_hop_by_hop n then none else expected_beside headers request_id client n

  forwarded_for_lem : (old : Option H.Value) (ip : String) → forwarded_for H old ip ≡ chained old ip
  unfolding forwarded_for
  forwarded_for_lem none ip = refl
  forwarded_for_lem (some old) ip = elim (Option-cases (H.to_str old)) [
    | inl unread ↦ rw unread refl
    | inr (chain, e) ↦ rw e refl
  ]

  -- A chain that is made longer reads as text.
  chained-visible :
      (old : Option H.Value) (ip : String)
      → is_visible ip ≡ true
      → is_visible (chained old ip) ≡ true
  chained-visible none ip h = h
  chained-visible (some old) ip h = elim (Option-cases (H.to_str old)) [
    | inl unread ↦
        rw unread
          (is_visible-append "" (String.◌++◌ ", " ip) refl (is_visible-append ", " ip refl h))
    | inr (chain, e) ↦ rw e (
        is_visible-append chain (String.◌++◌ ", " ip) (laws.to_str_visible old chain e)
          (is_visible-append ", " ip refl h))
  ]

  -- What a header is after the block that may insert it.
  abbrev or_else : Option H.Value → Option H.Value → Option H.Value
  or_else none o = o
  or_else (some v) o = some v

  get-insert_some :
      (headers : H.HeaderMap) (name : String) (v : Option H.Value) (n : String)
      → is_lower_case name ≡ true
      → is_lower_case n ≡ true
      → H.get (insert_some H headers name v) n
        ≡ (if name == n then or_else v (H.get headers n) else H.get headers n)
  get-insert_some headers name none n low h = ground arith
  get-insert_some headers name (some v) n low h = laws.get-insert headers name n v low h

  -- The block for the client's address succeeds, and sets the header to what is expected.
  add_forwarded_for_lem :
      (headers : H.HeaderMap) (client : Option String)
      → IsPlain client
      → (out : H.HeaderMap) × (add_forwarded_for H client headers ≡ ok out)
        × ((n : String)
            → is_lower_case n ≡ true
            → H.get out n
              ≡ (if "x-forwarded-for" == n then expected_for headers client else H.get headers n))
  unfolding add_forwarded_for
  add_forwarded_for_lem headers none plain =
      (headers, refl, λ n low. ground (arith, eq_iff "x-forwarded-for" n, ap (H.get headers)))
  add_forwarded_for_lem headers (some ip) plain =
      let text = chained (H.get headers "x-forwarded-for") ip in
      let (v, e) = laws.from_str_total text (chained-visible _ ip plain) in
      (
        H.insert headers "x-forwarded-for" v,
        rw (forwarded_for_lem (H.get headers "x-forwarded-for") ip, e) refl,
        λ n low. rw e (laws.get-insert headers "x-forwarded-for" n v refl low),
      )

  forwarded_host_lem :
      (headers : H.HeaderMap)
      → or_else (forwarded_host H headers) (H.get headers "x-forwarded-host")
        ≡ expected_host headers
  unfolding forwarded_host
  forwarded_host_lem headers = elim (Option-cases (H.get headers "host")) [
    | inl missing ↦ rw missing refl
    | inr (host, here) ↦ elim (Option-cases (H.to_str host)) [
      | inl unread ↦ rw (here, unread) refl
      | inr (text, e) ↦
          let (v, good) = laws.from_str_total text (laws.to_str_visible host text e) in
          rw (here, e, good) refl
    ]
  ]

  expected_for-insert :
      (headers : H.HeaderMap) (id : H.Value) (client : Option String)
      → expected_for (H.insert headers "x-request-id" id) client ≡ expected_for headers client
  expected_for-insert headers id none =
      laws.get-insert headers "x-request-id" "x-forwarded-for" id refl refl
  expected_for-insert headers id (some ip) =
      ap (λ old. H.from_str (chained old ip))
        (laws.get-insert headers "x-request-id" "x-forwarded-for" id refl refl)

  -- The tests of the specification in turn.
  headers-expected :
      (headers : H.HeaderMap) (request_id : String) (id : H.Value) (client : Option String)
      (n : String) (proto for_it base : Option H.Value)
      → H.from_str request_id ≡ some id
      → base ≡ (if "x-request-id" == n then some id else H.get headers n)
      → for_it ≡ (if "x-forwarded-for" == n then expected_for headers client else base)
      → proto ≡ (if "x-forwarded-proto" == n then some (H.from_static "http") else for_it)
      → (if "x-forwarded-host" == n then or_else (forwarded_host H headers) proto else proto)
        ≡ expected_beside headers request_id client n
  headers-expected headers request_id id client n proto for_it base e b f p =
      elim (Bool-cases ("x-forwarded-host" == n)) [
        | inl here ↦ rw here (
            let same = (eq_iff "x-forwarded-host" n).0 here in
            ap (or_else (forwarded_host H headers)) (came n proto for_it base b f p same)
            ∙ forwarded_host_lem headers)
        | inr other ↦ rw (other, e, p, f, b) refl
      ]
    where
      came :
          (n : String) (proto for_it base : Option H.Value)
          → base ≡ (if "x-request-id" == n then some id else H.get headers n)
          → for_it ≡ (if "x-forwarded-for" == n then expected_for headers client else base)
          → proto ≡ (if "x-forwarded-proto" == n then some (H.from_static "http") else for_it)
          → "x-forwarded-host" ≡ n
          → proto ≡ H.get headers "x-forwarded-host"
      came n proto for_it base b f p same =
          subst
            (λ m.
              base ≡ (if "x-request-id" == m then some id else H.get headers m)
              → for_it ≡ (if "x-forwarded-for" == m then expected_for headers client else base)
              → proto ≡ (if "x-forwarded-proto" == m then some (H.from_static "http") else for_it)
              → proto ≡ H.get headers "x-forwarded-host")
            same (λ b f p. p ∙ f ∙ b) b f p

  -- With header maps and values that behave as documented, and a request id and a client address of
  -- visible ASCII characters, normalization succeeds, and each header of the result, by its name in
  -- lower case, is the one that the specification gives: no hop-by-hop header is left; the host is
  -- told as "x-forwarded-host", "http" as "x-forwarded-proto", the chain with the client's address at
  -- its end as "x-forwarded-for", and the request id as "x-request-id"; all others are as they came.
  pub normalize-expected :
      (headers : H.HeaderMap) (request_id : String) (client : Option String)
      → is_visible request_id ≡ true
      → IsPlain client
      → (out : H.HeaderMap) × (normalize H headers request_id client ≡ ok out)
        × ((n : String)
            → is_lower_case n ≡ true
            → H.get out n ≡ expected headers request_id client n)
  unfolding normalize
  normalize-expected headers request_id client visible plain =
      let (id, e) = laws.from_str_total request_id visible in
      let with_id = H.insert headers "x-request-id" id in
      let (with_for, sent, for_is) = add_forwarded_for_lem with_id client plain in
      let with_proto = H.insert with_for "x-forwarded-proto" (H.from_static "http") in
      let with_host = insert_some H with_proto "x-forwarded-host" (forwarded_host H headers) in
      (
        strip_hop_by_hop_headers H with_host,
        rw (e, sent) refl,
        λ n low.
            get-strip_hop_by_hop_headers with_host n low
            ∙ ap (λ o. if is_hop_by_hop n then none else o)
                (get-insert_some with_proto "x-forwarded-host" (forwarded_host H headers) n refl low
                  ∙ headers-expected headers request_id id client n (H.get with_proto n)
                      (H.get with_for n) (H.get with_id n) e
                      (laws.get-insert headers "x-request-id" n id refl low)
                      (subst
                        (λ o.
                          H.get with_for n
                          ≡ (if "x-forwarded-for" == n then o else H.get with_id n))
                        (expected_for-insert headers id client) (for_is n low))
                      (laws.get-insert with_for "x-forwarded-proto" n (H.from_static "http") refl
                        low)),
      )
