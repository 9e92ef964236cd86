-- ===== src/Proxy/Reqid.antt =====
-- crates/budu-proxy/src/reqid.rs: the id of a request, the client's own if it is a safe token.
use budu_waf.Prelude.{
  ℕ, zero, suc, ◌+◌, ◌/◌, ◌%◌, ◌^◌, Bool, ◌||◌, ◌==◌, Option, none, some, [], ◌∷◌, ◌++◌, Text, all,
  ltb, is_empty, is_digit, is_upper, is_lower, trim, as_bytes, byte_len, if◌then◌else◌, ◌>>=◌,
}
use budu_waf.External.{Externals}

-- a byte of an id
unfoldable pub is_id_byte : ℕ → Bool
is_id_byte b =
    is_upper b || is_lower b || is_digit b || b == b'-' || b == b'_' || b == b'.' || b == b':'

unfoldable pub sanitize : Text → Option Text
sanitize text =
    let s = trim text in
    if is_empty s || ltb 128 (byte_len s)
    then none
    else if all is_id_byte (as_bytes s)
    then some s
    else none

abbrev pub hex_digit : ℕ → ℕ
hex_digit n = if ltb n 10 then b'0' + n else 87 + n

-- `{:016x}`: the low digits of a number, most significant first
unfoldable pub hex_fixed : ℕ → ℕ → Text
hex_fixed zero n = []
hex_fixed (suc digits) n = hex_fixed digits (n / 16) ++ (hex_digit (n % 16) ∷ [])

-- `generate`: from the seed of the process and the value of its counter
unfoldable pub generate : ℕ → ℕ → Text
generate seed n = hex_fixed 16 seed ++ hex_fixed 16 n

module _ (x : Externals) where
  unfoldable pub inbound : x.Headers → Text → Option Text
  inbound headers name =
      if is_empty name then none else ((x.get headers name >>= x.to_str) >>= sanitize)

  -- `resolve`: the id, and the counter after it (`fetch_add` wraps)
  unfoldable pub resolve : x.Headers → Text → ℕ → ℕ → Text × ℕ
  resolve headers name seed n = elim (inbound headers name) [
    | some id ↦ (id, n)
    | none ↦ (generate seed n, (n + 1) % 2 ^ 64)
  ]
