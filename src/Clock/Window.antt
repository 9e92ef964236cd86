-- ===== src/Clock/Window.antt =====
-- crates/budu-rules/src/ruleset.rs: the window test against the clock face.
use budu_waf.Prelude.{
  ℕ, ◌+◌, ◌-◌, ◌%◌, ◌<◌, ◌≡◌, some, Text, ℤ, pos, negsuc, ◌+ℤ◌, rem_euclid, leb, arith, ◌&&◌, ◌||◌,
  if◌then◌else◌, split_once, >>=-eq-some,
}
use budu_waf.Clock.{local_minute, in_window, parse_hhmm, parse_time_window}

local_minute-lt : (now : ℕ) (offset : ℤ) → local_minute now offset < 1440
unfolding local_minute rem_euclid
local_minute-lt now offset = go (pos now +ℤ offset)
  where
    go : (z : ℤ) → rem_euclid z 1440 < 1440
    go (pos n) = omega arith
    go (negsuc n) = omega arith

arc :
    (local start end : ℕ)
    → local < 1440
    → start < 1440
    → end < 1440
    → (if leb start end then leb start local && leb local end else leb start local || leb local end)
      ≡ leb ((local + 1440 - start) % 1440) ((end + 1440 - start) % 1440)
arc local start end p q r = ground arith

pub in_window_arc :
    (now start end : ℕ) (offset : ℤ)
    → start < 1440
    → end < 1440
    → in_window now start end offset
      ≡ leb ((local_minute now offset + 1440 - start) % 1440) ((end + 1440 - start) % 1440)
unfolding in_window
in_window_arc now start end offset p q =
    arc (local_minute now offset) start end (local_minute-lt now offset) p q

parse_hhmm-lt : (s : Text) (n : ℕ) → parse_hhmm s ≡ some n → n < 1440
unfolding parse_hhmm
parse_hhmm-lt s n h = ground arith

parse_time_window-lt :
    (s : Text) (a b : ℕ) → parse_time_window s ≡ some (a, b) → (a < 1440) × (b < 1440)
unfolding parse_time_window
parse_time_window-lt s a b h =
    let (p, _, h₁) = >>=-eq-some (split_once b'-' s) _ h in
    let (c, e₁, h₂) = >>=-eq-some (parse_hhmm p.0) _ h₁ in
    let (d, e₂, e₃) = >>=-eq-some (parse_hhmm p.1) _ h₂ in
    ground (arith, parse_hhmm-lt p.0 c e₁, parse_hhmm-lt p.1 d e₂)

-- A window that parses is the arc of the clock face from its start forward to its end, both ends
-- included and midnight no border: the test holds exactly if the local minute is met, going forward
-- from the start, no later than the end.
pub parsed_window_arc :
    (s : Text) (start end now : ℕ) (offset : ℤ)
    → parse_time_window s ≡ some (start, end)
    → (in_window now start end offset
        ≡ leb ((local_minute now offset + 1440 - start) % 1440) ((end + 1440 - start) % 1440))
      × (start < 1440)
      × (end < 1440)
parsed_window_arc s start end now offset h =
    let (p, q) = parse_time_window-lt s start end h in
    (in_window_arc now start end offset p q, p, q)
