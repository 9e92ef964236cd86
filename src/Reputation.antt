-- ===== src/Reputation.antt =====
-- crates/budu-reputation/src/lib.rs: block and allow lists of networks, with entries that expire.
pub mod Prune
use budu_waf.Prelude.{
  ℕ, Bool, true, false, ◌&&◌, not, Option, none, some, List, [], ◌∷◌, ◌++◌, Text, lit, trim, before,
  lines, split_whitespace, strip_prefix, parse_unsigned, u64_max, any, keep, map, ltb, leb, or_else,
  is_some_and, if◌then◌else◌,
}
use budu_waf.Common.{IpAddr, RequestCtx, ControlFlow, go_on, stop, block}
use budu_waf.External.{Externals}

pub record BlockEntry (x : Externals) : Type 0 where
  pub net : x.Net
  pub until : Option ℕ

-- The state of a line's `until=` tokens: `none` is an invalid number, which skips the line.
unfoldable pub scan_until : List Text → Option ℕ → Option (Option ℕ)
scan_until [] until = some until
scan_until (tok ∷ toks) until = elim (strip_prefix (lit "until=") tok) [
  | none ↦ scan_until toks until
  | some v ↦ elim (parse_unsigned u64_max v) [ none ↦ none | some ts ↦ scan_until toks (some ts) ]
]

-- `line_until`: in a build with `fail2ban`, and in one without
unfoldable pub line_until : Bool → List Text → ℕ → Option (Option ℕ)
line_until false tokens now = some none
line_until true tokens now = elim (scan_until tokens none) [
  | none ↦ none
  | some until ↦ if is_some_and until (λ u. leb u now) then none else some until
]

module _ (x : Externals) where
  unfoldable pub perm : x.Net → BlockEntry x
  perm net = record { net = net; until = none }

  unfoldable pub active : BlockEntry x → ℕ → Bool
  active e now = elim e.until [ none ↦ true | some u ↦ ltb now u ]

  unfoldable pub matches : BlockEntry x → IpAddr → ℕ → Bool
  matches e ip now = active e now && x.net_contains e.net ip

  unfoldable pub contains : List (BlockEntry x) → IpAddr → ℕ → Bool
  contains set ip now = any (λ e. matches e ip now) set

  unfoldable pub prune_expired : List (BlockEntry x) → ℕ → List (BlockEntry x)
  prune_expired set now =
      if any (λ e. not (active e now)) set then keep (λ e. active e now) set else set

  -- an address or a network; an address becomes a host route
  unfoldable pub parse_target : Text → Option x.Net
  parse_target s =
      or_else (x.parse_net s) (elim (x.parse_ip s) [ none ↦ none | some ip ↦ some (x.host_net ip) ])

  unfoldable pub parse_tokens : Bool → List Text → ℕ → Option (BlockEntry x)
  parse_tokens fail2ban [] now = none
  parse_tokens fail2ban (net_str ∷ tokens) now = elim (parse_target net_str) [
    | none ↦ none
    | some net ↦ elim (line_until fail2ban tokens now) [
      | none ↦ none
      | some until ↦ some (record { net = net; until = until })
    ]
  ]

  unfoldable pub parse_line : Bool → Text → ℕ → Option (BlockEntry x)
  parse_line fail2ban raw now =
      parse_tokens fail2ban (split_whitespace (trim (before b'#' raw))) now

  unfoldable pub parse_lines : Bool → List Text → ℕ → List (BlockEntry x)
  parse_lines fail2ban [] now = []
  parse_lines fail2ban (l ∷ ls) now = elim (parse_line fail2ban l now) [
    | none ↦ parse_lines fail2ban ls now
    | some e ↦ e ∷ parse_lines fail2ban ls now
  ]

  unfoldable pub parse_blocklist : Bool → Text → ℕ → List (BlockEntry x)
  parse_blocklist fail2ban text now = parse_lines fail2ban (lines text) now

  -- `build_blocks` and `build_allowlist`: the inline networks, and the file's text if one is named
  -- (`none` is no file; a file that cannot be read ends the start, and is not modelled)
  unfoldable pub build_blocks : Bool → List x.Net → Option Text → ℕ → List (BlockEntry x)
  build_blocks fail2ban inline file now =
      map perm inline ++ (elim file [ none ↦ [] | some text ↦ parse_blocklist fail2ban text now ])

  unfoldable pub inspect : List (BlockEntry x) → RequestCtx x.Headers → ℕ → ControlFlow
  inspect blocks ctx now =
      if contains blocks ctx.client.ip now
      then stop (block (lit "reputation.blocklist") 403 (lit "source IP is blocklisted"))
      else go_on
