-- ===== src/Prelude/Digits.antt =====
-- Decimal numbers: Rust's `parse::<u64>()` and its kin, and `to_string()`.
use Prim.Native.Nat.{ℕ, zero, suc, ◌+◌, ◌-◌, ◌*◌, ◌/◌, ◌%◌, ◌≤◌, ◌<◌}
use mathlib.Core.Path.{◌≡◌, refl, ◌∙◌}
use mathlib.Core.Option.{Option, none, some}
use mathlib.Core.Bool.{Bool, true, false, not, ◌&&◌}
use mathlib.Core.Logic.{inl, inr}
use mathlib.Core.List.{[], ◌∷◌}
use native.Mathlib.Omega.{arith}
use budu_waf.Prelude.Tests.{◌==◌, Bool-cases, ltb, leb, if◌then◌else◌, ◌>>=◌}
use budu_waf.Prelude.Strings.{Text, is_digit}
use budu_waf.Prelude.Lists.{all, is_empty}
use budu_waf.Prelude.Int.{ℤ, pos, neg}

-- the digits from the left, onto the value so far
read_digits : ℕ → Text → Option ℕ
read_digits acc [] = some acc
read_digits acc (c ∷ s) = if is_digit c then read_digits (acc * 10 + (c - b'0')) s else none

-- at least one digit, and nothing else
unfoldable pub parse_digits : Text → Option ℕ
unfolding read_digits
parse_digits [] = none
parse_digits (c ∷ s) = read_digits 0 (c ∷ s)

abbrev at_most : ℕ → ℕ → Option ℕ
at_most bound n = if leb n bound then some n else none

-- `parse` into an unsigned type with greatest value `bound`: one `+` may stand in front.
unfoldable pub parse_unsigned : ℕ → Text → Option ℕ
unfolding parse_digits
parse_unsigned bound [] = none
parse_unsigned bound (c ∷ s) = parse_digits (if c == b'+' then s else c ∷ s) >>= at_most bound

-- `parse` into a signed type with least value `-bound - 1`: one `+` or `-` may stand in front.
unfoldable pub parse_signed : ℕ → Text → Option ℤ
unfolding parse_digits
parse_signed bound [] = none
parse_signed bound (c ∷ s) =
    if c == b'-'
    then ((parse_digits s >>= at_most (bound + 1)) >>= λ n. some (neg (pos n)))
    else ((parse_digits (if c == b'+' then s else c ∷ s) >>= at_most bound) >>= λ n. some (pos n))

abbrev pub u64_max : ℕ
u64_max = 18_446_744_073_709_551_615

abbrev pub u32_max : ℕ
u32_max = 4_294_967_295

abbrev pub u16_max : ℕ
u16_max = 65_535

abbrev pub i64_max : ℕ
i64_max = 9_223_372_036_854_775_807

abbrev pub i16_max : ℕ
i16_max = 32_767

abbrev pub saturating_add : ℕ → ℕ → ℕ → ℕ
saturating_add bound a b = if leb (a + b) bound then a + b else bound

-- The decimal digits of a number (`to_string`), with fuel; a number has fewer digits than `n + 1`.
show_from : ℕ → ℕ → Text → Text
show_from zero n s = s
show_from (suc fuel) n s =
    let rest = show_from fuel (n / 10) ((b'0' + n % 10) ∷ s) in
    if ltb n 10 then (b'0' + n) ∷ s else rest

unfoldable pub show_ℕ : ℕ → Text
unfolding show_from
show_ℕ n = show_from (suc n) n []

pub parse_unsigned-le : (bound : ℕ) (s : Text) {n : ℕ} → parse_unsigned bound s ≡ some n → n ≤ bound
unfolding parse_unsigned
parse_unsigned-le bound (c ∷ s) h = ground arith
parse_unsigned-le bound [] h = ground arith

abbrev pub saturating_mul : ℕ → ℕ → ℕ → ℕ
saturating_mul bound a b = if leb (a * b) bound then a * b else bound

read_digits-show_from :
    (fuel n : ℕ) (s : Text) → n < fuel → read_digits 0 (show_from fuel n s) ≡ read_digits n s
unfolding show_from read_digits
read_digits-show_from zero n s h = elim h [ ]
read_digits-show_from (suc fuel) n s h = elim (Bool-cases (ltb n 10)) [
  | inl e ↦ rw e (ground arith)
  | inr e ↦
      let rest = read_digits-show_from fuel (n / 10) ((b'0' + n % 10) ∷ s) (ground arith) in
      rw e (ground (arith, rest))
]

-- a text of digits, and not an empty one
abbrev pub all_digits : Text → Bool
all_digits s = all is_digit s && not (is_empty s)

show_from-all_digits :
    (fuel n : ℕ) (s : Text)
    → n < fuel
    → all is_digit s ≡ true
    → all_digits (show_from fuel n s) ≡ true
unfolding show_from
show_from-all_digits zero n s h k = elim h [ ]
show_from-all_digits (suc fuel) n s h k = elim (Bool-cases (ltb n 10)) [
  | inl e ↦ rw e (ground arith)
  | inr e ↦
      rw e (show_from-all_digits fuel (n / 10) ((b'0' + n % 10) ∷ s) (ground arith) (ground arith))
]

pub show_ℕ-all_digits : (n : ℕ) → all_digits (show_ℕ n) ≡ true
unfolding show_ℕ
show_ℕ-all_digits n = show_from-all_digits (suc n) n [] (omega arith) refl

parse_digits-read_digits : (s : Text) → all_digits s ≡ true → parse_digits s ≡ read_digits 0 s
unfolding parse_digits
parse_digits-read_digits (c ∷ s) h = refl
parse_digits-read_digits [] h = absurd (cc)

parse_unsigned-parse_digits :
    (bound : ℕ) (s : Text)
    → all_digits s ≡ true
    → parse_unsigned bound s ≡ (parse_digits s >>= at_most bound)
unfolding parse_unsigned
parse_unsigned-parse_digits bound (c ∷ s) h =
    let plain : (c == b'+') ≡ false = ground arith in rw plain refl
parse_unsigned-parse_digits bound [] h = absurd (cc)

-- What `to_string` prints parses as the number, if the type holds it.
pub parse_unsigned-show_ℕ : (bound n : ℕ) → n ≤ bound → parse_unsigned bound (show_ℕ n) ≡ some n
unfolding show_ℕ read_digits
parse_unsigned-show_ℕ bound n h =
    let digits = show_ℕ-all_digits n in
    let read : parse_digits (show_ℕ n) ≡ some n =
      parse_digits-read_digits (show_ℕ n) digits
      ∙ read_digits-show_from (suc n) n [] (omega arith) in
    parse_unsigned-parse_digits bound (show_ℕ n) digits ∙ rw read (ground arith)
