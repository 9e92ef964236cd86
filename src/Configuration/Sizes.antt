-- ===== src/Configuration/Sizes.antt =====
-- crates/budu-config/src/size.rs: the sizes that are read.
use budu_waf.Prelude.{
  ℕ, ◌≤◌, ◌≡◌, refl, ap, sym, true, false, some, [], ◌∷◌, ◌++◌, Text, lit, all, arith, show_ℕ,
  show_ℕ-all_digits, parse_unsigned-show_ℕ, u64_max, is_digit, is_empty, all_digits, trim, to_lower,
  plain, plain-no_space, digits-plain, all-append, trim-ends,
}
use mathlib.Core.List.{append-nil}
use budu_waf.Configuration.{digits_end, multiple_of, checked_mul, parse_size}

-- the units that a size may have
pub data Suffix : Type 0 where
  nothing b k kb kib m mb mib g gb gib : Suffix

abbrev pub spelled : Suffix → Text
spelled Suffix.nothing = []
spelled Suffix.b = lit "B"
spelled Suffix.k = lit "k"
spelled Suffix.kb = lit "kB"
spelled Suffix.kib = lit "KiB"
spelled Suffix.m = lit "M"
spelled Suffix.mb = lit "MB"
spelled Suffix.mib = lit "MiB"
spelled Suffix.g = lit "G"
spelled Suffix.gb = lit "GB"
spelled Suffix.gib = lit "GiB"

abbrev pub factor : Suffix → ℕ
factor Suffix.nothing = 1
factor Suffix.b = 1
factor Suffix.k = 1_000
factor Suffix.kb = 1_000
factor Suffix.kib = 1_024
factor Suffix.m = 1_000_000
factor Suffix.mb = 1_000_000
factor Suffix.mib = 1_048_576
factor Suffix.g = 1_000_000_000
factor Suffix.gb = 1_000_000_000
factor Suffix.gib = 1_073_741_824

-- a unit is known, has no digit in front and no white space in it
record IsUnit (text : Text) (n : ℕ) : Type 0 where
  pub known : multiple_of (to_lower (trim text)) ≡ some n
  pub no_digit : digits_end text ≡ ([], text)
  pub is_plain : plain text ≡ true

spelled-IsUnit : (u : Suffix) → IsUnit (spelled u) (factor u)
unfolding multiple_of trim
spelled-IsUnit Suffix.nothing = record { known = refl; no_digit = refl; is_plain = refl }
spelled-IsUnit u = record { known = refl; no_digit = refl; is_plain = refl }

digits_end-append :
    (s t : Text) → all is_digit s ≡ true → digits_end t ≡ ([], t) → digits_end (s ++ t) ≡ (s, t)
digits_end-append [] t h e = e
digits_end-append (c ∷ s) t h e =
    let here : is_digit c ≡ true = ground arith in
    let later = digits_end-append s t (ground arith) e in
    rw here (ap (λ (r : Text × Text). (c ∷ r.0, r.1)) later)

-- a text of digits and a unit is not trimmed
trim-number :
    (s t : Text)
    → all_digits s ≡ true
    → plain t ≡ true
    → (trim (s ++ t) ≡ s ++ t) × (is_empty (s ++ t) ≡ false)
trim-number [] t h p = absurd (cc)
trim-number (c ∷ s) t h p =
    let digits : all is_digit (c ∷ s) ≡ true = ground arith in
    let whole = (c ∷ s) ++ t in
    let blank = plain-no_space whole (all-append _ (c ∷ s) t (digits-plain (c ∷ s) digits) p) in
    (trim-ends whole whole [] [] whole (sym (append-nil whole)) refl blank refl blank refl, refl)

-- A size that is written as a number and a unit, of those that there are, is the number of bytes that
-- this stands for, or an error if that is no 64-bit number.
pub parse_size-spelled :
    (n : ℕ) (u : Suffix)
    → n ≤ u64_max
    → parse_size (show_ℕ n ++ spelled u) ≡ checked_mul n (factor u)
unfolding parse_size
parse_size-spelled n u h =
    let facts = spelled-IsUnit u in
    let digits = show_ℕ-all_digits n in
    let (trimmed, some_text) = trim-number (show_ℕ n) (spelled u) digits facts.is_plain in
    let ends = digits_end-append (show_ℕ n) (spelled u) (ground arith) facts.no_digit in
    rw (trimmed, some_text, ends, parse_unsigned-show_ℕ u64_max n h, facts.known, parse_size) refl
