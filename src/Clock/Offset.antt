-- ===== src/Clock/Offset.antt =====
-- crates/budu-rules/src/ruleset.rs: which offsets `parse_tz_offset` gives.
use budu_waf.Prelude.{
  ℕ, ◌≤◌, ◌≡◌, ◌≢◌, refl, none, some, [], ◌∷◌, Text, lit, ℤ, pos, negsuc, pos_part, neg_part, ◌+ℤ◌,
  ◌*ℤ◌, rem_euclid, wrap_i16, arith, All, Option-cases, inl, inr, trim, split_once, strip_prefix,
  parse_signed, i16_max, unwrap_or, >>=-eq-some, All-split_once, All-trim, All-strip_prefix,
}
use budu_waf.Clock.{offset_minutes, parse_hours, parse_signed_offset}

-- The side of Greenwich that a sign stands for.
pub data Side : Type 0 where
  east west : Side

-- At most 14 hours and 59 minutes to a side.
abbrev pub IsOffset : Side → ℤ → Type 0
IsOffset east z = (pos_part z ≤ 899) × (neg_part z ≡ 0)
IsOffset west z = (pos_part z ≡ 0) × (neg_part z ≤ 899)

-- hours and minutes with the sign of a side: none for the east, which may have its own in them
abbrev pub spelled : Side → Text → Text
spelled east rest = rest
spelled west rest = b'-' ∷ rest

data IsSign : Side → ℤ → Type 0 where
  plus : IsSign east (pos 1)
  minus : IsSign west (negsuc 0)

wrap_i16_id : (z : ℤ) → pos_part z ≤ 899 → neg_part z ≤ 899 → wrap_i16 z ≡ z
unfolding wrap_i16 rem_euclid
wrap_i16_id (pos n) p q = ground arith
wrap_i16_id (negsuc n) p q = ground arith

offset_minutes-east :
    (h m : ℕ) (z : ℤ) → offset_minutes (pos 1) (pos h) (pos m) ≡ some z → IsOffset east z
unfolding offset_minutes ◌+ℤ◌ ◌*ℤ◌ wrap_i16 rem_euclid
offset_minutes-east h m z e = ground arith

offset_minutes-west :
    (h m : ℕ) (z : ℤ) → offset_minutes (negsuc 0) (pos h) (pos m) ≡ some z → IsOffset west z
unfolding offset_minutes ◌+ℤ◌ ◌*ℤ◌ wrap_i16 rem_euclid
offset_minutes-west h m z e = ground arith

-- no minus sign
abbrev pub IsUnsigned : ℕ → Type 0
IsUnsigned c = c ≢ b'-'

parse_signed-pos :
    (s : Text) (z : ℤ) → All IsUnsigned s → parse_signed i16_max s ≡ some z → (n : ℕ) × (z ≡ pos n)
unfolding parse_signed
parse_signed-pos [] z u h = absurd (cc)
parse_signed-pos (c ∷ s) z (p, u) h = (pos_part z, ground arith)

offset_minutes-IsOffset :
    {side : Side} {sign : ℤ}
    → IsSign side sign
    → (h m : ℕ) (z : ℤ) → offset_minutes sign (pos h) (pos m) ≡ some z
    → IsOffset side z
offset_minutes-IsOffset plus h m z e = offset_minutes-east h m z e
offset_minutes-IsOffset minus h m z e = offset_minutes-west h m z e

-- the hours and minutes of `parse_hours`
abbrev parts : Text → Text × Text
parts s = unwrap_or (split_once b':' s) (s, lit "0")

parts-IsUnsigned :
    (s : Text) → All IsUnsigned s → All IsUnsigned (parts s).0 × All IsUnsigned (parts s).1
parts-IsUnsigned s u = elim (Option-cases (split_once b':' s)) [
  | inl n ↦ rw n (u, (omega arith, tt))
  | inr ((a, b), e) ↦ rw e (All-split_once IsUnsigned b':' s e u)
]

parse_hours-IsOffset :
    {side : Side} {sign : ℤ}
    → IsSign side sign
    → (s : Text) (z : ℤ) → All IsUnsigned s
    → parse_hours sign s ≡ some z
    → IsOffset side z
unfolding parse_hours
parse_hours-IsOffset g s z u e =
    let (ua, ub) = parts-IsUnsigned s u in
    let (h, e₁, r₁) = >>=-eq-some (parse_signed i16_max (trim (parts s).0)) _ e in
    let (m, e₂, r₂) = >>=-eq-some (parse_signed i16_max (trim (parts s).1)) _ r₁ in
    let (n, p) = parse_signed-pos (trim (parts s).0) h (All-trim IsUnsigned (parts s).0 ua) e₁ in
    let (k, q) = parse_signed-pos (trim (parts s).1) m (All-trim IsUnsigned (parts s).1 ub) e₂ in
    offset_minutes-IsOffset g n k z (cc)

no_minus : (s : Text) → All IsUnsigned s → strip_prefix (lit "-") s ≡ none
unfolding strip_prefix
no_minus [] u = refl
no_minus (c ∷ s) (p, u) = ground arith

IsUnsigned-rest :
    (s : Text) → All IsUnsigned s → All IsUnsigned (unwrap_or (strip_prefix (lit "+") s) s)
IsUnsigned-rest s u = elim (Option-cases (strip_prefix (lit "+") s)) [
  | inl n ↦ rw n u
  | inr (r, e) ↦ rw e (All-strip_prefix IsUnsigned (lit "+") s e u)
]

east_of : (s : Text) (z : ℤ) → All IsUnsigned s → parse_signed_offset s ≡ some z → IsOffset east z
unfolding parse_signed_offset
east_of s z u e =
    parse_hours-IsOffset plus (unwrap_or (strip_prefix (lit "+") s) s) z (IsUnsigned-rest s u)
      (ground (arith, no_minus s u))

west_of :
    (s : Text) (z : ℤ)
    → All IsUnsigned s
    → parse_signed_offset (b'-' ∷ s) ≡ some z
    → IsOffset west z
unfolding parse_signed_offset strip_prefix
west_of s z u e = parse_hours-IsOffset minus s z u e

-- An offset that is written with no minus sign is not to the west and at most 14:59 to the east; one
-- with a minus sign in front of hours and minutes that have none is not to the east and at most
-- 14:59 to the west.
pub parse_signed_offset-IsOffset :
    (side : Side) (rest : Text) (z : ℤ)
    → All IsUnsigned rest
    → parse_signed_offset (spelled side rest) ≡ some z
    → IsOffset side z
parse_signed_offset-IsOffset east rest z u e = east_of rest z u e
parse_signed_offset-IsOffset west rest z u e = west_of rest z u e
