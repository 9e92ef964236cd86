-- ===== src/Clock/Week.antt =====
-- crates/budu-rules/src/ruleset.rs: day masks and the day of the week.
use budu_waf.Prelude.{
  refl, ◌/◌, if◌then◌else◌, ℕ, zero, suc, ◌+◌, ◌-◌, ◌%◌, ◌<◌, ◌≤◌, ◌≡◌, Bool, ◌||◌, some, Text, ℤ,
  pos, negsuc, ◌+ℤ◌, split_once, wrap_i64, pos_part, neg_part, ◌^◌, rem_euclid, div_euclid, leb,
  arith, ◌==◌, false, Bool-cases, ==_iff, inl, inr,
}
use budu_waf.Clock.{weekday, parse_day_name, add_days, DayMask, has_day, set_day, set_range}

has_day-set_day :
    (m : DayMask) (d x : ℕ) → x < 7 → has_day (set_day m d) x ≡ (d == x) || has_day m x
unfolding has_day set_day
has_day-set_day m d x h = ground arith

arc_step :
    (d b x : ℕ)
    → d < 7
    → b < 7
    → x < 7
    → d == b ≡ false
    → leb ((x + 7 - d) % 7) ((b + 7 - d) % 7)
      ≡ (d == x) || leb ((x + 7 - (d + 1) % 7) % 7) ((b + 7 - (d + 1) % 7) % 7)
arc_step d b x p q r e = ground arith

-- the days that a range covers, from `d` forward to `b`
abbrev pub in_arc : ℕ → ℕ → ℕ → Bool
in_arc d b x = leb ((x + 7 - d) % 7) ((b + 7 - d) % 7)

pub record Covers (d b : ℕ) (m m' : DayMask) : Type 0 where
  pub days : (x : ℕ) → x < 7 → has_day m' x ≡ has_day m x || in_arc d b x

set_range-one : (d : ℕ) (m : DayMask) → d < 7 → Covers d d m (set_day m d)
set_range-one d m p = record { days = λ x q. ground (arith, has_day-set_day m d x q) }

Covers-step :
    (d b : ℕ) (m m' : DayMask)
    → d < 7
    → b < 7
    → d == b ≡ false
    → Covers ((d + 1) % 7) b (set_day m d) m'
    → Covers d b m m'
Covers-step d b m m' p q e c = record {
  days = λ x r. ground (arith, c.days x r, has_day-set_day m d x r, arc_step d b x p q r e);
}

set_range-Covers :
    (fuel d b : ℕ) (m : DayMask)
    → d < 7
    → b < 7
    → (b + 7 - d) % 7 < fuel
    → (m' : DayMask) × (set_range fuel d b m ≡ some m') × Covers d b m m'
unfolding set_range
set_range-Covers zero d b m p q h = absurd (omega arith)
set_range-Covers (suc fuel) d b m p q h = elim (Bool-cases (d == b)) [
  | inl e ↦ (set_day m d, rw e, rw (← (==_iff d b).0 e) (set_range-one d m p))
  | inr e ↦
      let (m', r, c) =
        set_range-Covers fuel ((d + 1) % 7) b (set_day m d) (omega arith) q (ground arith) in
      (m', rw (e, r), Covers-step d b m m' p q e c)
]

parse_day_name-lt : (s : Text) (d : ℕ) → parse_day_name s ≡ some d → d < 7
unfolding parse_day_name
parse_day_name-lt s d h = ground arith

-- A range of day names always ends, within seven rounds, and adds exactly the days from the first
-- one forward to the last one, past Saturday if need be.
pub add_days-Covers :
    (tok a b : Text) (d e : ℕ) (m : DayMask)
    → split_once b'-' tok ≡ some (a, b)
    → parse_day_name a ≡ some d
    → parse_day_name b ≡ some e
    → (m' : DayMask) × (add_days tok m ≡ some m') × Covers d e m m'
unfolding add_days
add_days-Covers tok a b d e m h p q =
    let (m', r, c) =
      set_range-Covers 7 d e m (parse_day_name-lt a d p) (parse_day_name-lt b e q) (omega arith) in
    (m', ground (arith, r), c)

wrap_i64_id : (z : ℤ) → pos_part z < 2 ^ 63 → neg_part z ≤ 2 ^ 63 → wrap_i64 z ≡ z
unfolding wrap_i64 rem_euclid
wrap_i64_id (pos n) p q = ground arith
wrap_i64_id (negsuc n) p q = ground arith

day_bounds :
    (e : ℕ) (o : ℤ)
    → e < 2 ^ 62
    → pos_part o < 2 ^ 15
    → neg_part o ≤ 2 ^ 15
    → (pos_part (pos e +ℤ o) < 2 ^ 63) × (neg_part (pos e +ℤ o) ≤ 2 ^ 63)
unfolding ◌+ℤ◌
day_bounds e o p q r = ground arith

-- the day after a day of the week, 0 being Sunday
abbrev pub next_day : ℕ → ℕ
next_day d = if d == 6 then 0 else d + 1

-- The day of the week that is a number of days after the first of January 1970, a Thursday.
unfoldable pub day_after_epoch : ℕ → ℕ
day_after_epoch zero = 4
day_after_epoch (suc n) = next_day (day_after_epoch n)

day_after_epoch-eq : (n : ℕ) → day_after_epoch n ≡ (n + 4) % 7
unfolding day_after_epoch
day_after_epoch-eq zero = refl
day_after_epoch-eq (suc n) = ground (arith, day_after_epoch-eq n)

local_weekday : (m : ℕ) → rem_euclid (div_euclid (pos m) 1440 +ℤ pos 4) 7 ≡ (m / 1440 + 4) % 7
unfolding rem_euclid div_euclid ◌+ℤ◌
local_weekday m = ground arith

-- The day of the week is counted from a Thursday, the first of January 1970, by the days that have
-- passed on the local clock: where the local time, `m`, is the time and the offset together, and the
-- time is before the year 10^12 and the offset one of 16 bits.
pub weekday-day_after_epoch :
    (e m : ℕ) (o : ℤ)
    → e < 2 ^ 62
    → pos_part o < 2 ^ 15
    → neg_part o ≤ 2 ^ 15
    → pos e +ℤ o ≡ pos m
    → weekday (pos e) o ≡ day_after_epoch (m / 1440)
unfolding weekday
weekday-day_after_epoch e m o p q r local =
    let (a, b) = day_bounds e o p q r in
    rw (wrap_i64_id (pos e +ℤ o) a b, local, local_weekday m, day_after_epoch-eq (m / 1440)) refl
