-- ===== src/Parser.antt =====
-- crates/budu-parser/src/lib.rs: percent-decoding and case folding of paths, queries and bodies.
-- The functions that append to a `String` take it and give it back.
pub mod Laws
use budu_waf.Prelude.{
  ℕ, ◌+◌, ◌-◌, ◌*◌, Bool, true, false, ◌&&◌, Option, none, some, [], ◌∷◌, ◌++◌, Text, Bytes,
  as_bytes, lower, ltb, within, ◌==◌, ◌>>=◌, if◌then◌else◌,
}
use budu_waf.Common.{RequestCtx, ControlFlow, go_on}

unfoldable pub hex : ℕ → Option ℕ
hex b =
    if within b'0' b'9' b
    then some (b - b'0')
    else if within b'a' b'f' b
    then some (b - b'a' + 10)
    else if within b'A' b'F' b
    then some (b - b'A' + 10)
    else none

-- `push_byte`, as the one character that it pushes
unfoldable pub push_byte : Bool → ℕ → ℕ
push_byte lowercase b = if ltb b 128 then (if lowercase then lower b else b) else b'?'

-- `%` and two hexadecimal digits: the byte that they name, `(h << 4) | l`
unfoldable pub escape : ℕ → ℕ → ℕ → Option ℕ
unfolding hex
escape b d e = if b == b'%' then (hex d >>= λ h. hex e >>= λ l. some (h * 16 + l)) else none

-- the other branches of the match on `b`
unfoldable pub literal : Bool → ℕ → ℕ
literal plus_is_space b = if plus_is_space && b == b'+' then b' ' else b

-- The loop, as what it appends. The guard `i + 2 < input.len()` is the pattern of three bytes.
unfoldable pub decode_fold : Bool → Bool → Bytes → Text
decode_fold plus lowercase [] = []
decode_fold plus lowercase (b ∷ d ∷ e ∷ rest) = elim (escape b d e) [
  | some v ↦ push_byte lowercase v ∷ decode_fold plus lowercase rest
  | none ↦ push_byte lowercase (literal plus b) ∷ decode_fold plus lowercase (d ∷ e ∷ rest)
]
decode_fold plus lowercase (b ∷ rest) =
    push_byte lowercase (literal plus b) ∷ decode_fold plus lowercase rest

unfoldable pub decode_fold_into : Bytes → Bool → Bool → Text → Text
unfolding decode_fold escape literal push_byte
decode_fold_into input plus_is_space lowercase out =
    out ++ decode_fold plus_is_space lowercase input

unfoldable pub normalize_into : Bytes → Bool → Text → Text
unfolding decode_fold_into
normalize_into input plus_is_space out = decode_fold_into input plus_is_space true out

unfoldable pub decode_into : Bytes → Bool → Text → Text
unfolding decode_fold_into
decode_into input plus_is_space out = decode_fold_into input plus_is_space false out

-- `NormalizeStage::inspect`
unfoldable pub inspect : {Headers : Type 0} → RequestCtx Headers → RequestCtx Headers × ControlFlow
unfolding normalize_into
inspect ctx = (
  record ctx {
    normalized = record (ctx.normalized) {
      path = some (normalize_into (as_bytes ctx.path) false []);
      query = elim ctx.query [ some q ↦ some (normalize_into (as_bytes q) true []) | none ↦ none ];
    };
  },
  go_on,
)
