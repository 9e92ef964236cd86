-- ===== src/Bans/Shown.antt =====
-- crates/budu/src/ban.rs: the command that lists the bans.
use budu_waf.Prelude.{
  ℕ, ◌-◌, ◌≡◌, refl, true, Option, none, some, List, [], ◌∷◌, Text, lit, trim, before,
  split_whitespace, strip_prefix, parse_unsigned, u64_max, ltb, if◌then◌else◌, arith,
}
use budu_waf.External.{Externals}
use budu_waf.Reputation.{BlockEntry, parse_tokens, parse_line}
use budu_waf.Bans.{Disk, first_net, read_lines, blocklist_path}

-- what is printed of the end of a ban: with the seconds that are left, or not
pub data Standing : Type 0 where
  permanent : Standing
  expires : (left until : ℕ) → Standing
  expired : (until : ℕ) → Standing

abbrev pub standing : Option ℕ → ℕ → Standing
standing none now = permanent
standing (some until) now = if ltb now until then expires (until - now) until else expired until

-- the value of the first `until=`
unfoldable pub find_until : List Text → Option Text
find_until [] = none
find_until (tok ∷ toks) = elim (strip_prefix (lit "until=") tok) [
  | none ↦ find_until toks
  | some v ↦ some v
]

unfoldable pub until_shown : List Text → Option ℕ
unfolding find_until
until_shown toks = elim (find_until toks) [ none ↦ none | some v ↦ parse_unsigned u64_max v ]

module _ (x : Externals) where
  -- the line of a network, from the tokens of its line in the file
  abbrev pub shown_net : Option x.Net → List Text → ℕ → Option (x.Net × Standing)
  shown_net none toks now = none
  shown_net (some net) toks now = some (net, standing (until_shown toks) now)

  unfoldable pub shown_body : Text → ℕ → Option (x.Net × Standing)
  shown_body [] now = none
  shown_body (c ∷ body) now =
      let toks = split_whitespace (c ∷ body) in shown_net (first_net x toks) toks now

  unfoldable pub shown : List Text → ℕ → List (x.Net × Standing)
  unfolding shown_body
  shown [] now = []
  shown (l ∷ ls) now = elim (shown_body (trim (before b'#' l)) now) [
    | none ↦ shown ls now
    | some s ↦ s ∷ shown ls now
  ]

  -- `list`: `none` is that no list is configured
  unfoldable pub list : Text → ℕ → Disk → Option (List (x.Net × Standing))
  unfolding shown
  list blocklist_file now disk = elim (blocklist_path blocklist_file) [
    | none ↦ none
    | some path ↦ some (shown (read_lines disk path) now)
  ]

  parse_tokens-first_net :
      (toks : List Text) (now : ℕ) (e : BlockEntry x)
      → parse_tokens x true toks now ≡ some e
      → first_net x toks ≡ some e.net
  unfolding parse_tokens
  parse_tokens-first_net [] now e h = absurd (cc)
  parse_tokens-first_net (tok ∷ toks) now e h = ground arith

  shown_body-loaded :
      (body : Text) (now : ℕ) (e : BlockEntry x)
      → parse_tokens x true (split_whitespace body) now ≡ some e
      → (s : Standing) × (shown_body body now ≡ some (e.net, s))
  unfolding parse_tokens shown_body split_whitespace
  shown_body-loaded [] now e h = absurd (cc)
  shown_body-loaded (c ∷ body) now e h =
      rw (parse_tokens-first_net (split_whitespace (c ∷ body)) now e h, shown_body) (_, refl)

  -- Every line that the proxy loads is shown, with its network.
  pub shown-loaded :
      (l : Text) (now : ℕ) (e : BlockEntry x)
      → parse_line x true l now ≡ some e
      → (s : Standing) × (shown_body (trim (before b'#' l)) now ≡ some (e.net, s))
  unfolding parse_line
  shown-loaded l now e h = shown_body-loaded (trim (before b'#' l)) now e h
