-- ===== src/Clock.antt =====
-- crates/budu-rules/src/ruleset.rs: times of day, days of the week and timezone offsets. `i16` and
-- `i64` arithmetic wraps around, as in a release build.
pub mod Window
pub mod Offset
pub mod Week
use budu_waf.Prelude.{
  ℕ, zero, suc, ◌+◌, ◌*◌, ◌%◌, Bool, true, false, ◌&&◌, ◌||◌, Option, none, some, List, [], ◌∷◌,
  Text, lit, eq_text, trim, to_lower, split, split_once, strip_prefix, is_empty, parse_unsigned,
  parse_signed, u16_max, i16_max, ℤ, pos, negsuc, ◌+ℤ◌, ◌*ℤ◌, leb_ℤ, div_euclid, rem_euclid,
  wrap_i16, wrap_i64, leb, ◌==◌, ◌>>=◌, unwrap_or, or_else, if◌then◌else◌,
}

-- `in_window`: the local minute, and the test that wraps past midnight
unfoldable pub local_minute : ℕ → ℤ → ℕ
local_minute now_utc offset_min = rem_euclid (pos now_utc +ℤ offset_min) 1440

unfoldable pub in_window : ℕ → ℕ → ℕ → ℤ → Bool
in_window now_utc start end offset_min =
    let local = local_minute now_utc offset_min in
    if leb start end then leb start local && leb local end else leb start local || leb local end

-- `weekday`: 0 is Sunday
unfoldable pub weekday : ℤ → ℤ → ℕ
weekday epoch_min offset_min =
    rem_euclid (div_euclid (wrap_i64 (epoch_min +ℤ offset_min)) 1440 +ℤ pos 4) 7

abbrev any_of : Text → List Text → Bool
any_of s [] = false
any_of s (n ∷ ns) = eq_text s n || any_of s ns

unfoldable pub parse_day_name : Text → Option ℕ
parse_day_name s =
    let name = to_lower (trim s) in
    if any_of name (lit "sun" ∷ lit "sunday" ∷ [])
    then some 0
    else if any_of name (lit "mon" ∷ lit "monday" ∷ [])
    then some 1
    else if any_of name (lit "tue" ∷ lit "tues" ∷ lit "tuesday" ∷ [])
    then some 2
    else if any_of name (lit "wed" ∷ lit "weds" ∷ lit "wednesday" ∷ [])
    then some 3
    else if any_of name (lit "thu" ∷ lit "thur" ∷ lit "thurs" ∷ lit "thursday" ∷ [])
    then some 4
    else if any_of name (lit "fri" ∷ lit "friday" ∷ [])
    then some 5
    else if any_of name (lit "sat" ∷ lit "saturday" ∷ [])
    then some 6
    else none

-- The mask of seven bits is the record of its bits, Sunday first.
pub record DayMask : Type 0 where
  pub sun : Bool
  pub mon : Bool
  pub tue : Bool
  pub wed : Bool
  pub thu : Bool
  pub fri : Bool
  pub sat : Bool

abbrev pub no_days : DayMask
no_days = record {
  sun = false;
  mon = false;
  tue = false;
  wed = false;
  thu = false;
  fri = false;
  sat = false;
}

-- `mask & (1 << d) != 0`
unfoldable pub has_day : DayMask → ℕ → Bool
has_day m d =
    if d == 0
    then m.sun
    else if d == 1
    then m.mon
    else if d == 2
    then m.tue
    else if d == 3
    then m.wed
    else if d == 4
    then m.thu
    else if d == 5
    then m.fri
    else (d == 6) && m.sat

-- `mask |= 1 << d`
unfoldable pub set_day : DayMask → ℕ → DayMask
set_day m d = record {
  sun = d == 0 || m.sun;
  mon = d == 1 || m.mon;
  tue = d == 2 || m.tue;
  wed = d == 3 || m.wed;
  thu = d == 4 || m.thu;
  fri = d == 5 || m.fri;
  sat = d == 6 || m.sat;
}

-- The `loop` over a range of days, from `d` to `b`, with fuel; `none` means that it ran out.
unfoldable pub set_range : ℕ → ℕ → ℕ → DayMask → Option DayMask
set_range zero d b m = none
set_range (suc fuel) d b m =
    let m' = set_day m d in
    let rest = set_range fuel ((d + 1) % 7) b m' in if d == b then some m' else rest

-- One element of the comma-separated list.
unfoldable pub add_days : Text → DayMask → Option DayMask
add_days tok m = elim (split_once b'-' tok) [
  | some (a, b) ↦ parse_day_name a >>= λ d. parse_day_name b >>= λ e. set_range 7 d e m
  | none ↦ parse_day_name tok >>= λ d. some (set_day m d)
]

unfoldable pub add_all : List Text → DayMask → Option DayMask
add_all [] m = some m
add_all (tok ∷ toks) m =
    (if is_empty (trim tok) then some m else add_days (trim tok) m) >>= λ m'. add_all toks m'

abbrev is_no_day : DayMask → Bool
is_no_day m = if m.sun || m.mon || m.tue || m.wed || m.thu || m.fri || m.sat then false else true

unfoldable pub parse_day_mask : Text → Option DayMask
parse_day_mask s = add_all (split b',' s) no_days >>= λ m. if is_no_day m then none else some m

-- `(h <= 23 && m <= 59).then_some(h * 60 + m)`
unfoldable pub parse_hhmm : Text → Option ℕ
parse_hhmm s = or_else (split_once b':' (trim s)) (split_once b'.' (trim s)) >>= λ p.
    parse_unsigned u16_max (trim p.0) >>= λ h. parse_unsigned u16_max (trim p.1) >>= λ m.
    if leb h 23 && leb m 59 then some (h * 60 + m) else none

unfoldable pub parse_time_window : Text → Option (ℕ × ℕ)
parse_time_window s =
    split_once b'-' s >>= λ p. parse_hhmm p.0 >>= λ a. parse_hhmm p.1 >>= λ b. some (a, b)

-- The hours and minutes of an offset behind its sign, `(h <= 14 && m <= 59)` included.
unfoldable pub offset_minutes : ℤ → ℤ → ℤ → Option ℤ
offset_minutes sign h m =
    if leb_ℤ h (pos 14) && leb_ℤ m (pos 59)
    then some (wrap_i16 (sign *ℤ wrap_i16 (wrap_i16 (h *ℤ pos 60) +ℤ m)))
    else none

unfoldable pub parse_hours : ℤ → Text → Option ℤ
parse_hours sign rest =
    let hm = unwrap_or (split_once b':' rest) (rest, lit "0") in
    parse_signed i16_max (trim hm.0) >>= λ h.
    parse_signed i16_max (trim hm.1) >>= λ m. offset_minutes sign h m

-- the text behind an optional `UTC` or `utc`
abbrev strip_utc : Text → Text
strip_utc s = unwrap_or (or_else (strip_prefix (lit "UTC") s) (strip_prefix (lit "utc") s)) s

unfoldable pub parse_signed_offset : Text → Option ℤ
parse_signed_offset s = elim (strip_prefix (lit "-") s) [
  | some r ↦ parse_hours (negsuc 0) r
  | none ↦ parse_hours (pos 1) (unwrap_or (strip_prefix (lit "+") s) s)
]

unfoldable pub parse_tz_offset : Text → Option ℤ
parse_tz_offset s =
    if is_empty (trim s)
    then some (pos 0)
    else (let t = trim (strip_utc (trim s)) in
        if is_empty t then some (pos 0) else parse_signed_offset t)
