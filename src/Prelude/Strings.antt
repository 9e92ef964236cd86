-- ===== src/Prelude/Strings.antt =====
-- Text is a list of code points, and bytes are a list of numbers below 256. The functions are those
-- of Rust's `str`, under its names, as far as the program uses them.
use Prim.Native.Char.{code}
use Prim.Native.Nat.{ℕ, ◌+◌, ◌-◌, ◌/◌, ◌%◌}
use Prim.Native.String.{String}
use mathlib.Core.Path.{◌≡◌, refl}
use mathlib.Core.Bool.{Bool, true, false, ◌&&◌, ◌||◌, not}
use mathlib.Core.Option.{Option, none, some}
use mathlib.Core.List.{List, [], ◌∷◌, ◌++◌, map, reverse}
use native.Mathlib.Omega.{arith}
use budu_waf.Prelude.Tests.{◌==◌, ltb, within, if◌then◌else◌}
use budu_waf.Prelude.Lists.{keep, is_empty, length}

abbrev pub Text : Type 0
Text = List ℕ

abbrev pub Bytes : Type 0
Bytes = List ℕ

-- A text literal.
abbrev pub lit : String → Text
lit String.[] = []
lit (String.◌∷◌ c s) = code c ∷ lit s

abbrev pub eq_text : Text → Text → Bool
eq_text [] [] = true
eq_text [] (y ∷ ys) = false
eq_text (x ∷ xs) [] = false
eq_text (x ∷ xs) (y ∷ ys) = x == y && eq_text xs ys

pub eq_text_refl : (s : Text) → eq_text s s ≡ true
eq_text_refl [] = refl
eq_text_refl (x ∷ xs) = ground (arith, eq_text_refl xs)

pub eq_text_sound : (s t : Text) → eq_text s t ≡ true → s ≡ t
eq_text_sound [] [] h = refl
eq_text_sound [] (y ∷ ys) h = cc
eq_text_sound (x ∷ xs) [] h = cc
eq_text_sound (x ∷ xs) (y ∷ ys) h = ground (arith, eq_text_sound xs ys)

-- The Unicode property White_Space, which `trim` and `split_whitespace` use.
abbrev pub is_whitespace : ℕ → Bool
is_whitespace c =
    within 9 13 c
    || c == 32
    || c == 0x85
    || c == 0xa0
    || c == 0x1680
    || within 0x2000 0x200a c
    || within 0x2028 0x2029 c
    || c == 0x202f
    || c == 0x205f
    || c == 0x3000

abbrev pub is_upper : ℕ → Bool
is_upper c = within b'A' b'Z' c

abbrev pub is_lower : ℕ → Bool
is_lower c = within b'a' b'z' c

abbrev pub is_digit : ℕ → Bool
is_digit c = within b'0' b'9' c

-- `to_ascii_lowercase`, `to_ascii_uppercase`
abbrev pub lower : ℕ → ℕ
lower c = if is_upper c then c + 32 else c

abbrev pub upper : ℕ → ℕ
upper c = if is_lower c then c - 32 else c

abbrev pub to_lower : Text → Text
to_lower s = map lower s

abbrev pub to_upper : Text → Text
to_upper s = map upper s

unfoldable pub trim_start : Text → Text
trim_start [] = []
trim_start (c ∷ s) = elim (is_whitespace c) [ true ↦ trim_start s | false ↦ c ∷ s ]

unfoldable pub trim_end : Text → Text
unfolding trim_start
trim_end s = reverse (trim_start (reverse s))

unfoldable pub trim : Text → Text
unfolding trim_start trim_end
trim s = trim_end (trim_start s)

-- `trim_matches(c)` for one character
strip_char : ℕ → Text → Text
strip_char c [] = []
strip_char c (x ∷ s) = elim (x == c) [ true ↦ strip_char c s | false ↦ x ∷ s ]

unfoldable pub trim_matches : ℕ → Text → Text
unfolding strip_char
trim_matches c s = reverse (strip_char c (reverse (strip_char c s)))

unfoldable pub strip_prefix : Text → Text → Option Text
strip_prefix [] s = some s
strip_prefix (p ∷ ps) [] = none
strip_prefix (p ∷ ps) (c ∷ s) = if p == c then strip_prefix ps s else none

unfoldable pub starts_with : Text → Text → Bool
starts_with s [] = true
starts_with [] (p ∷ ps) = false
starts_with (c ∷ s) (p ∷ ps) = p == c && starts_with s ps

unfoldable pub ends_with : Text → Text → Bool
unfolding starts_with
ends_with s p = starts_with (reverse s) (reverse p)

-- `strip_suffix`
unfoldable pub strip_suffix : Text → Text → Option Text
unfolding strip_prefix
strip_suffix p s = elim (strip_prefix (reverse p) (reverse s)) [
  | none ↦ none
  | some r ↦ some (reverse r)
]

-- `s.contains(p)`
unfoldable pub contains : Text → Text → Bool
unfolding starts_with
contains [] p = starts_with [] p
contains (c ∷ s) p = starts_with (c ∷ s) p || contains s p

abbrev pub push_head : ℕ → List Text → List Text
push_head c [] = (c ∷ []) ∷ []
push_head c (l ∷ ls) = (c ∷ l) ∷ ls

-- `s.split(c)`: never empty
unfoldable pub split : ℕ → Text → List Text
split c [] = [] ∷ []
split c (x ∷ s) = let rest = split c s in if x == c then [] ∷ rest else push_head x rest

-- `s.split_once(c)`
unfoldable pub split_once : ℕ → Text → Option (Text × Text)
split_once c [] = none
split_once c (x ∷ s) =
    let rest = split_once c s in
    if x == c then some ([], s) else elim rest [ none ↦ none | some (a, b) ↦ some (x ∷ a, b) ]

-- `s.split(..).next()`: the part before the first separator
unfoldable pub before : ℕ → Text → Text
before c [] = []
before c (x ∷ s) = if x == c then [] else x ∷ before c s

-- the pieces between white space, empty ones included
unfoldable pub split_spaces : Text → List Text
split_spaces [] = [] ∷ []
split_spaces (x ∷ s) =
    let rest = split_spaces s in if is_whitespace x then [] ∷ rest else push_head x rest

-- `s.split_whitespace()`
unfoldable pub split_whitespace : Text → List Text
unfolding split_spaces
split_whitespace s = keep (λ p. not (is_empty p)) (split_spaces s)

-- `s.lines()`: the text after the last line feed is no line if it is empty
unfoldable pub chomp : Text → Text
unfolding strip_suffix
chomp l = elim (strip_suffix (13 ∷ []) l) [ none ↦ l | some r ↦ r ]

unfoldable pub chomp_all : List Text → List Text
unfolding chomp
chomp_all [] = []
chomp_all ([] ∷ []) = []
chomp_all (l ∷ []) = l ∷ []
chomp_all (l ∷ ls) = chomp l ∷ chomp_all ls

unfoldable pub lines : Text → List Text
unfolding split chomp_all
lines s = chomp_all (split 10 s)

-- The UTF-8 bytes of a text (`as_bytes`), and their number (`len`).
abbrev pub encode_char : ℕ → Bytes
encode_char c =
    if ltb c 0x80
    then c ∷ []
    else if ltb c 0x800
    then (0xc0 + c / 64) ∷ (0x80 + c % 64) ∷ []
    else if ltb c 0x10000
    then (0xe0 + c / 4096) ∷ (0x80 + c / 64 % 64) ∷ (0x80 + c % 64) ∷ []
    else (0xf0 + c / 262144) ∷ (0x80 + c / 4096 % 64) ∷ (0x80 + c / 64 % 64) ∷ (0x80 + c % 64) ∷ []

unfoldable pub as_bytes : Text → Bytes
as_bytes [] = []
as_bytes (c ∷ s) = encode_char c ++ as_bytes s

unfoldable pub byte_len : Text → ℕ
unfolding as_bytes
byte_len s = length (as_bytes s)
