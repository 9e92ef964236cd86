-- ===== src/Proxy/Headers.antt =====
-- crates/budu-proxy/src/lib.rs: what the proxy reads from headers, and the headers it strips and sets.
use budu_waf.Prelude.{
  ℕ, Bool, false, ◌||◌, not, Option, none, some, List, [], ◌∷◌, map, Text, lit, any, keep, eq_text,
  is_empty, ltb, to_lower, starts_with, split, before, trim, parse_unsigned, u64_max, is_some_and,
  if◌then◌else◌, ◌>>=◌, unwrap_or,
}
use budu_waf.Common.{IpAddr, ClientInfo}
use budu_waf.External.{Externals}
use budu_waf.Proxy.Model.{Http, Config}

-- `HOP_BY_HOP`
abbrev pub hop_by_hop : List Text
hop_by_hop =
    lit "connection"
    ∷ lit "keep-alive"
    ∷ lit "proxy-authenticate"
    ∷ lit "proxy-authorization"
    ∷ lit "te"
    ∷ lit "trailer"
    ∷ lit "transfer-encoding"
    ∷ lit "upgrade"
    ∷ []

module _ (x : Externals) where
  -- `get(name).and_then(|v| v.to_str().ok())`
  unfoldable pub header : x.Headers → Text → Option Text
  header headers name = x.get headers name >>= x.to_str

  unfoldable pub declared_len_over : x.Headers → ℕ → Bool
  declared_len_over headers max =
      is_some_and (header headers (lit "content-length") >>= λ s. parse_unsigned u64_max (trim s))
        (λ len. ltb max len)

  -- a content type with one of the prefixes
  unfoldable pub type_listed : x.Headers → List Text → Bool
  type_listed headers types = elim (header headers (lit "content-type")) [
    | none ↦ false
    | some v ↦ any (λ t. starts_with (to_lower v) (to_lower t)) types
  ]

  unfoldable pub has_body : Text → Bool
  has_body method =
      eq_text method (lit "POST") || eq_text method (lit "PUT") || eq_text method (lit "PATCH")

  -- the headers that `Connection` names
  unfoldable pub listed : x.Headers → List Text
  listed headers = elim (header headers (lit "connection")) [
    | none ↦ []
    | some v ↦ keep (λ s. not (is_empty s)) (map (λ s. to_lower (trim s)) (split b',' v))
  ]

  unfoldable pub remove_all : List Text → x.Headers → x.Headers
  remove_all [] headers = headers
  remove_all (name ∷ names) headers = remove_all names (x.remove headers name)

module _ (x : Externals) (h : Http x) where
  unfoldable pub should_inspect_body : Text → x.Headers → Config x h → Bool
  should_inspect_body method headers cfg =
      if has_body x method then type_listed x headers cfg.content_types else false

  unfoldable pub response_body_inspectable : x.Headers → Config x h → Bool
  response_body_inspectable headers cfg = type_listed x headers cfg.response_content_types

  unfoldable pub resolve_client : Config x h → x.Headers → IpAddr → ClientInfo
  resolve_client cfg headers peer =
      let ip =
        if x.net_contains cfg.trusted_peer peer
        then unwrap_or
            (header x headers cfg.client_ip_header >>= λ s. x.parse_ip (trim (before b',' s))) peer
        else peer in
      record { ip = ip; geo = none }

  -- `Content-Length`, pinned to the length of a body
  unfoldable pub pin_length : ℕ → x.Headers → x.Headers
  pin_length len headers =
      x.insert (x.remove headers (lit "content-length")) (lit "content-length") (h.number_value len)

  unfoldable pub sanitize_forward_headers : x.Headers → Option ℕ → x.Headers
  sanitize_forward_headers headers buffered_len =
      let kept = remove_all x hop_by_hop (remove_all x (listed x headers) headers) in
      elim buffered_len [ none ↦ kept | some len ↦ pin_length len kept ]

  unfoldable pub set_request_id : x.Headers → Text → Text → x.Headers
  set_request_id headers name id = if is_empty name then headers else elim (h.header_name name) [
    | none ↦ headers
    | some n ↦ elim (h.header_value id) [ none ↦ headers | some v ↦ x.insert headers n v ]
  ]

  -- `rewrite_uri`: the upstream's scheme and authority, the request's path and query
  unfoldable pub rewrite_uri : h.Uri → h.Uri → Option h.Uri
  rewrite_uri upstream orig = elim (h.uri_authority upstream) [
    | none ↦ none
    | some authority ↦
        h.build_uri (h.uri_scheme upstream) authority
          (unwrap_or (h.uri_path_and_query orig) (lit "/"))
  ]
