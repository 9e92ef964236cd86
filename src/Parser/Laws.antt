-- ===== src/Parser/Laws.antt =====
-- crates/budu-parser/src/lib.rs: what the decoder's output is.
use budu_waf.Prelude.{
  ℕ, ◌+◌, ◌*◌, ◌<◌, ◌≤◌, ◌≡◌, ◌≢◌, refl, Bool, true, false, none, some, [], ◌∷◌, ◌++◌, Text, Bytes,
  is_upper, length, All, map, inl, inr, Option-cases, arith,
}
use budu_waf.Parser.{hex, push_byte, escape, literal, decode_fold, normalize_into}

-- What a decoded character may be: ASCII, and no upper-case letter if letters are folded.
abbrev pub IsFolded : Bool → ℕ → Type 0
IsFolded lowercase c = (c < 128) × (lowercase ≡ true → is_upper c ≡ false)

push_byte-IsFolded : (lowercase : Bool) (b : ℕ) → IsFolded lowercase (push_byte lowercase b)
unfolding push_byte
push_byte-IsFolded true b = ground arith
push_byte-IsFolded false b = ground arith

decode_fold-IsFolded :
    (plus lowercase : Bool) (input : Bytes)
    → All (IsFolded lowercase) (decode_fold plus lowercase input)
unfolding decode_fold
decode_fold-IsFolded plus lowercase [] = tt
decode_fold-IsFolded plus lowercase (b ∷ []) = (push_byte-IsFolded lowercase (literal plus b), tt)
decode_fold-IsFolded plus lowercase (b ∷ d ∷ []) = (
  push_byte-IsFolded lowercase (literal plus b),
  (push_byte-IsFolded lowercase (literal plus d), tt),
)
decode_fold-IsFolded plus lowercase (b ∷ d ∷ e ∷ rest) = elim (Option-cases (escape b d e)) [
  | inl p ↦
      rw (p, All)
        (
          push_byte-IsFolded lowercase (literal plus b),
          decode_fold-IsFolded plus lowercase (d ∷ e ∷ rest),
        )
  | inr (v, p) ↦
      rw (p, All) (push_byte-IsFolded lowercase v, decode_fold-IsFolded plus lowercase rest)
]

decode_fold-length :
    (plus lowercase : Bool) (input : Bytes)
    → length (decode_fold plus lowercase input) ≤ length input
unfolding decode_fold
decode_fold-length plus lowercase [] = omega arith
decode_fold-length plus lowercase (b ∷ []) = omega arith
decode_fold-length plus lowercase (b ∷ d ∷ []) = omega arith
decode_fold-length plus lowercase (b ∷ d ∷ e ∷ rest) = elim (Option-cases (escape b d e)) [
  | inl p ↦ rw (p, length) (omega (arith, decode_fold-length plus lowercase (d ∷ e ∷ rest)))
  | inr (v, p) ↦ rw (p, length) (omega (arith, decode_fold-length plus lowercase rest))
]

-- Whatever bytes come in, what is appended is ASCII with no upper-case letter, what stood in the
-- buffer stays in front of it, and it is no longer than the input.
pub normalize_into_canonical :
    (input : Bytes) (plus : Bool) (out : Text)
    → (added : Text) × (normalize_into input plus out ≡ out ++ added)
      × All (IsFolded true) added
      × (length added ≤ length input)
unfolding normalize_into
normalize_into_canonical input plus out = (
  decode_fold plus true input,
  refl,
  decode_fold-IsFolded plus true input,
  decode_fold-length plus true input,
)

-- One byte of a text as a client may write it: itself, if it is neither `%` nor `+`, or `%` and two
-- hexadecimal digits of either case that name it.
pub data Spelling : Bytes → Bytes → Type 0 where
  nil : Spelling [] []
  plain : {c : ℕ} {s t : Bytes} → c ≢ b'%' → c ≢ b'+' → Spelling s t → Spelling (c ∷ s) (c ∷ t)
  escaped :
      {c : ℕ} {s t : Bytes} (d e h l : ℕ)
      → hex d ≡ some h
      → hex e ≡ some l
      → c ≡ h * 16 + l
      → Spelling s t
      → Spelling (c ∷ s) (b'%' ∷ d ∷ e ∷ t)

escape-none : (b d e : ℕ) → b ≢ b'%' → escape b d e ≡ none
unfolding escape
escape-none b d e h = ground arith

escape-some : (d e h l : ℕ) → hex d ≡ some h → hex e ≡ some l → escape b'%' d e ≡ some (h * 16 + l)
unfolding escape
escape-some d e h l p q = ground arith

decode_fold-literal :
    (plus lowercase : Bool) (b : ℕ) (rest : Bytes)
    → b ≢ b'%'
    → decode_fold plus lowercase (b ∷ rest)
      ≡ push_byte lowercase (literal plus b) ∷ decode_fold plus lowercase rest
unfolding decode_fold
decode_fold-literal plus lowercase b [] h = refl
decode_fold-literal plus lowercase b (d ∷ []) h = refl
decode_fold-literal plus lowercase b (d ∷ e ∷ rest) h = rw (escape-none b d e h, decode_fold)

decode_fold-escaped :
    (plus lowercase : Bool) (d e h l : ℕ) (rest : Bytes)
    → hex d ≡ some h
    → hex e ≡ some l
    → decode_fold plus lowercase (b'%' ∷ d ∷ e ∷ rest)
      ≡ push_byte lowercase (h * 16 + l) ∷ decode_fold plus lowercase rest
unfolding decode_fold
decode_fold-escaped plus lowercase d e h l rest p q = rw (escape-some d e h l p q, decode_fold)

literal_lem : (plus : Bool) (b : ℕ) → b ≢ b'+' → literal plus b ≡ b
unfolding literal
literal_lem plus b h = ground arith

decode_fold-Spelling :
    (plus lowercase : Bool) {s t : Bytes}
    → Spelling s t
    → decode_fold plus lowercase t ≡ map (push_byte lowercase) s
unfolding decode_fold
decode_fold-Spelling plus lowercase nil = refl
decode_fold-Spelling plus lowercase (plain {c} {s} {t} h k w) = rw (
  decode_fold-literal plus lowercase c t h,
  literal_lem plus c k,
  decode_fold-Spelling plus lowercase w,
)
decode_fold-Spelling plus lowercase (escaped {c} {s} {t} d e h l p q r w) =
    rw (decode_fold-escaped plus lowercase d e h l t p q, r, decode_fold-Spelling plus lowercase w)

-- Every spelling of some bytes, with any of them percent-encoded in either case of digits, adds the
-- same to the buffer: the bytes themselves, each folded by `push_byte` and not decoded again.
pub normalize_into-Spelling :
    (plus : Bool) (out : Text) {s t : Bytes}
    → Spelling s t
    → normalize_into t plus out ≡ out ++ map (push_byte true) s
unfolding normalize_into
normalize_into-Spelling plus out w = rw (decode_fold-Spelling plus true w)
