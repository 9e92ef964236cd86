-- ===== src/Sanity.antt =====
-- crates/budu-pipeline/src/sanity.rs: structural limits on a request.
use budu_waf.Prelude.{
  ℕ, ◌+◌, ◌≤◌, ◌≡◌, ◌↔◌, Bool, Option, none, some, ◌⊎◌, Bytes, Text, lit, byte_len, trim,
  parse_unsigned, u64_max, is_none, ltb, ◌>>=◌, if◌then◌else◌, arith, Option-cases, inl, inr,
}
use budu_waf.Common.{RequestCtx, ControlFlow, go_on, stop, block}
use budu_waf.External.{Externals}

pub record SanityStage : Type 0 where
  pub max_uri_len : ℕ
  pub max_header_count : ℕ

-- path, `?` and query
unfoldable pub uri_len : Text → Option Text → ℕ
uri_len path none = byte_len path
uri_len path (some q) = byte_len path + (byte_len q + 1)

module _ (x : Externals) where
  -- whether a Content-Length, if there is one, is a number
  unfoldable pub content_length_ok : x.Headers → Bool
  content_length_ok h = elim (x.get h (lit "content-length")) [
    | none ↦ Bool.true
    | some cl ↦
        if is_none (x.to_str cl >>= λ s. parse_unsigned u64_max (trim s))
        then Bool.false
        else Bool.true
  ]

  unfoldable pub inspect : SanityStage → RequestCtx x.Headers → ControlFlow
  inspect s ctx =
      if ltb s.max_uri_len (uri_len ctx.path ctx.query)
      then stop (block (lit "sanity.uri_len") 414 (lit "request URI exceeds configured limit"))
      else if ltb s.max_header_count (x.count ctx.headers)
      then stop (block (lit "sanity.header_count") 431 (lit "too many request headers"))
      else if content_length_ok ctx.headers
      then go_on
      else stop (block (lit "sanity.content_length") 400 (lit "malformed Content-Length"))

  -- What a request must be to pass.
  pub record IsSane (s : SanityStage) (ctx : RequestCtx x.Headers) : Type 0 where
    pub uri : uri_len ctx.path ctx.query ≤ s.max_uri_len
    pub headers : x.count ctx.headers ≤ s.max_header_count
    pub length :
        (x.get ctx.headers (lit "content-length") ≡ none)
        ⊎ ((cl : Bytes) × (t : Text) × (n : ℕ) × (x.get ctx.headers (lit "content-length")
              ≡ some cl)
            × (x.to_str cl ≡ some t)
            × (parse_unsigned u64_max (trim t) ≡ some n))

  length-of :
      (h : x.Headers)
      → content_length_ok h ≡ Bool.true
      → (x.get h (lit "content-length") ≡ none)
        ⊎ ((cl : Bytes) × (t : Text) × (n : ℕ) × (x.get h (lit "content-length") ≡ some cl)
            × (x.to_str cl ≡ some t)
            × (parse_unsigned u64_max (trim t) ≡ some n))
  unfolding content_length_ok
  length-of h e = elim (Option-cases (x.get h (lit "content-length"))) [
    | inl p ↦ inl p
    | inr (cl, p) ↦ elim (Option-cases (x.to_str cl)) [
      | inl q ↦ absurd (ground arith)
      | inr (t, q) ↦ elim (Option-cases (parse_unsigned u64_max (trim t))) [
        | inl r ↦ absurd (ground arith)
        | inr (n, r) ↦ inr (cl, t, n, p, q, r)
      ]
    ]
  ]

  of-length :
      (h : x.Headers)
      → (x.get h (lit "content-length") ≡ none)
        ⊎ ((cl : Bytes) × (t : Text) × (n : ℕ) × (x.get h (lit "content-length") ≡ some cl)
            × (x.to_str cl ≡ some t)
            × (parse_unsigned u64_max (trim t) ≡ some n))
      → content_length_ok h ≡ Bool.true
  unfolding content_length_ok
  of-length h (inl p) = rw (p, content_length_ok)
  of-length h (inr (cl, t, n, p, q, r)) = ground arith

  -- A request passes exactly if its URI and its number of headers are within the limits and its
  -- Content-Length, if it has one, is a 64-bit number; every other one is blocked.
  pub inspect-IsSane :
      (s : SanityStage) (ctx : RequestCtx x.Headers) → (inspect s ctx ≡ go_on) ↔ IsSane s ctx
  unfolding inspect
  inspect-IsSane s ctx = (
    λ e. record {
      uri = ground arith;
      headers = ground arith;
      length = length-of ctx.headers (ground arith);
    },
    λ i. ground (arith, of-length ctx.headers i.length),
  )
