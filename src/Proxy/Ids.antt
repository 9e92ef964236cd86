-- ===== src/Proxy/Ids.antt =====
-- crates/budu-proxy/src/reqid.rs: the ids that requests get.
use mathlib.Core.Path.{subst}
use budu_waf.Prelude.{
  ℕ, zero, suc, ◌/◌, ◌%◌, ◌<◌, ◌≤◌, ◌≡◌, refl, sym, ap, ◌∙◌, true, false, some, [], ◌∷◌, ◌++◌, Text,
  Bytes, arith, all, length, length-append, encode_char, as_bytes, byte_len, Option-cases, inl, inr,
  is_empty, trim, >>=-eq-some, ◌>>=◌,
}
use mathlib.Core.List.{append_assoc}
use budu_waf.External.{Externals}
use budu_waf.Proxy.Reqid.{is_id_byte, sanitize, hex_digit, hex_fixed, generate, inbound, resolve}

-- A short token of safe characters: nothing that could end a log line or a header.
pub IsToken : Text → Type 0
IsToken s = (all is_id_byte (as_bytes s) ≡ true) × (1 ≤ length s) × (byte_len s ≤ 128)

-- a text that is not empty
length_pos : (s : Text) → is_empty s ≡ false → 1 ≤ length s
length_pos [] h = cc
length_pos (c ∷ s) h = omega arith

sanitize-IsToken : (t s : Text) → sanitize t ≡ some s → IsToken s
unfolding sanitize IsToken
sanitize-IsToken t s h =
    let e : trim t ≡ s = ground arith in
    subst IsToken e (ground arith, length_pos (trim t) (ground arith), ground arith)

all-append :
    (xs ys : Bytes)
    → all is_id_byte xs ≡ true
    → all is_id_byte ys ≡ true
    → all is_id_byte (xs ++ ys) ≡ true
all-append [] ys h k = k
all-append (x ∷ xs) ys h k = ground (arith, all-append xs ys)

as_bytes-append : (s t : Text) → as_bytes (s ++ t) ≡ as_bytes s ++ as_bytes t
unfolding as_bytes
as_bytes-append [] t = refl
as_bytes-append (c ∷ s) t =
    ap (λ r. encode_char c ++ r) (as_bytes-append s t)
    ∙ sym (append_assoc (encode_char c) (as_bytes s) (as_bytes t))

hex_digit-ok :
    (n : ℕ)
    → n < 16
    → (is_id_byte (hex_digit n) ≡ true) × (as_bytes (hex_digit n ∷ []) ≡ hex_digit n ∷ [])
unfolding as_bytes is_id_byte
hex_digit-ok n h = (ground arith, ground arith)

hex_fixed-ok :
    (digits n : ℕ)
    → (all is_id_byte (as_bytes (hex_fixed digits n)) ≡ true)
      × (length (hex_fixed digits n) ≡ digits)
      × (length (as_bytes (hex_fixed digits n)) ≡ digits)
unfolding hex_fixed as_bytes
hex_fixed-ok zero n = (refl, refl, refl)
hex_fixed-ok (suc d) n =
    let (a, l, b) = hex_fixed-ok d (n / 16) in
    let (ok, e) = hex_digit-ok (n % 16) (omega arith) in
    let k =
      as_bytes-append (hex_fixed d (n / 16)) (hex_digit (n % 16) ∷ [])
      ∙ ap (λ t. as_bytes (hex_fixed d (n / 16)) ++ t) e in
    (
      rw k (all-append _ (hex_digit (n % 16) ∷ []) a (ground arith)),
      omega (arith, length-append (hex_fixed d (n / 16)) (hex_digit (n % 16) ∷ []), l),
      ap length k
          ∙ omega
              (arith, length-append (as_bytes (hex_fixed d (n / 16))) (hex_digit (n % 16) ∷ []), b),
    )

generate-IsToken : (seed n : ℕ) → IsToken (generate seed n)
unfolding generate IsToken byte_len
generate-IsToken seed n =
    let (a, l, b) = hex_fixed-ok 16 seed in
    let (a', l', b') = hex_fixed-ok 16 n in
    let k = as_bytes-append (hex_fixed 16 seed) (hex_fixed 16 n) in
    (
      rw k (all-append _ _ a a'),
      omega (arith, length-append (hex_fixed 16 seed) (hex_fixed 16 n), l, l'),
      rw k (
          omega (
            arith,
            length-append (as_bytes (hex_fixed 16 seed)) (as_bytes (hex_fixed 16 n)),
            b,
            b',
          )),
    )

module _ (x : Externals) where
  inbound-sanitized :
      (headers : x.Headers) (name s : Text)
      → inbound x headers name ≡ some s
      → (t : Text) × (sanitize t ≡ some s)
  unfolding inbound
  inbound-sanitized headers name s e =
      let (t, _, k) = >>=-eq-some (x.get headers name >>= x.to_str) sanitize (ground arith) in
      (t, k)

  -- The id of a request is a token, whether the client brought it or it was made here: it has at
  -- least one character and at most 128 bytes, each a letter, a digit or one of `-`, `_`, `.` and `:`.
  pub resolve-IsToken :
      (headers : x.Headers) (name : Text) (seed n : ℕ) → IsToken (resolve x headers name seed n).0
  unfolding resolve
  resolve-IsToken headers name seed n = elim (Option-cases (inbound x headers name)) [
    | inl e ↦ rw (e, resolve) (generate-IsToken seed n)
    | inr (s, e) ↦
        let (t, k) = inbound-sanitized headers name s e in rw (e, resolve) (sanitize-IsToken t s k)
  ]
