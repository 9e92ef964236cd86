-- ===== src/Examples/Edge.antt =====
-- Theorems on parsing, on the clock and on the limits of a request, at values.
use budu_waf.Prelude.{
  ◌+◌, ◌-◌, ◌%◌, ◌<◌, ◌≤◌, ◌≡◌, ◌↔◌, refl, true, false, some, none, [], ◌∷◌, ◌++◌, Text, lit, All,
  map, length, arith, pos, negsuc, leb, split_once, trim, parse_unsigned, parse_signed,
  strip_prefix, wrap_i16, ◌*ℤ◌, ◌+ℤ◌,
}
use budu_waf.Common.{RequestCtx, not_buffered, v4, go_on}
use budu_waf.Parser.{hex, normalize_into, push_byte}
use budu_waf.Parser.Laws.{IsFolded, Spelling, normalize_into_canonical, normalize_into-Spelling}
use budu_waf.Parser.Laws
use budu_waf.Clock.{
  parse_time_window, in_window, local_minute, add_days, DayMask, weekday, parse_signed_offset,
  parse_hhmm, parse_day_name, no_days, parse_hours, offset_minutes,
}
use budu_waf.Clock.Window.{parsed_window_arc}
use budu_waf.Clock.Week.{Covers, add_days-Covers, day_after_epoch, weekday-day_after_epoch}
use budu_waf.Clock.Offset.{west, IsUnsigned, IsOffset, parse_signed_offset-IsOffset}
use budu_waf.Sanity
use budu_waf.Sanity.{IsSane, inspect-IsSane}
use budu_waf.Rules.Args.Multipart.{split_on}
use budu_waf.Rules.Args.Multipart.Pieces.{join, join-split_on}
use budu_waf.Examples.Toy.{toy, Map}

normalize_into_canonical_example :
    (added : Text) × (normalize_into (lit "/A%4a+b%") true (lit "x") ≡ lit "x" ++ added)
    × All (IsFolded true) added
    × (length added ≤ 8)
normalize_into_canonical_example = normalize_into_canonical (lit "/A%4a+b%") true (lit "x")

spelled : Spelling (lit "aJ") (lit "%61%4a")
unfolding hex
spelled =
    Laws.escaped b'6' b'1' 6 1 refl refl refl (Laws.escaped b'4' b'a' 4 10 refl refl refl Laws.nil)

normalize_into-Spelling_example :
    normalize_into (lit "%61%4a") false (lit "x") ≡ lit "x" ++ map (push_byte true) (lit "aJ")
normalize_into-Spelling_example = normalize_into-Spelling false (lit "x") spelled

night : parse_time_window (lit "22:00-06:00") ≡ some (1320, 360)
unfolding parse_time_window split_once parse_hhmm trim parse_unsigned
night = refl

parsed_window_arc_example :
    (in_window 3600 1320 360 (pos 0)
      ≡ leb ((local_minute 3600 (pos 0) + 1440 - 1320) % 1440) ((360 + 1440 - 1320) % 1440))
    × (1320 < 1440)
    × (360 < 1440)
parsed_window_arc_example = parsed_window_arc (lit "22:00-06:00") 1320 360 3600 (pos 0) night

add_days-Covers_example :
    (m' : DayMask) × (add_days (lit "Fri-Mon") no_days ≡ some m') × Covers 5 1 no_days m'
unfolding split_once parse_day_name trim
add_days-Covers_example =
    add_days-Covers (lit "Fri-Mon") (lit "Fri") (lit "Mon") 5 1 no_days refl refl refl

weekday-day_after_epoch_example : weekday (pos 2500) (negsuc 479) ≡ day_after_epoch 1
unfolding ◌+ℤ◌
weekday-day_after_epoch_example =
    weekday-day_after_epoch 2500 2020 (negsuc 479) (omega arith) (omega arith) (omega arith) refl

unsigned : All IsUnsigned (lit "09:30")
unsigned = (ground arith, (ground arith, (ground arith, (ground arith, (ground arith, tt)))))

half_past_nine : parse_signed_offset (lit "-09:30") ≡ some (negsuc 569)
unfolding parse_signed_offset strip_prefix parse_hours parse_signed trim split_once offset_minutes
    wrap_i16 ◌*ℤ◌ ◌+ℤ◌
half_past_nine = refl

parse_signed_offset-IsOffset_example : IsOffset west (negsuc 569)
parse_signed_offset-IsOffset_example =
    parse_signed_offset-IsOffset west (lit "09:30") (negsuc 569) unsigned half_past_nine

abbrev request : RequestCtx Map
request = record {
  method = lit "GET";
  path = lit "/a";
  query = some (lit "q=1");
  headers = (lit "content-length", lit "12") ∷ [];
  client = record { ip = v4 7; geo = none };
  body = not_buffered;
  normalized = record { path = none; query = none; scratch = [] };
}

inspect-IsSane_example :
    (Sanity.inspect toy (record { max_uri_len = 6; max_header_count = 1 }) request ≡ go_on)
    ↔ IsSane toy (record { max_uri_len = 6; max_header_count = 1 }) request
inspect-IsSane_example =
    inspect-IsSane toy (record { max_uri_len = 6; max_header_count = 1 }) request

join-split_on_example : join (lit "--") (split_on (lit "a--b---c") (lit "--")) ≡ lit "a--b---c"
join-split_on_example = join-split_on (lit "a--b---c") (lit "--")
