-- ===== src/Bans/Entry.antt =====
-- crates/budu/src/ban.rs, crates/budu-reputation/src/lib.rs: the line of a ban, as the proxy reads it.
use budu_waf.Prelude.{
  ℕ, ◌≤◌, ◌≡◌, refl, Bool, true, false, not, ◌&&◌, ◌==◌, Option, none, some, [], ◌∷◌, ◌++◌, Text,
  lit, all, arith, is_empty, is_whitespace, leb, show_ℕ, show_ℕ-all_digits, parse_unsigned-show_ℕ,
  plain, all-append, digits-plain, tokens-plain, tokens-two, u64_max, is_digit, strip_prefix,
  leb→le, if◌then◌else◌,
}
use budu_waf.External.{Externals}
use budu_waf.Reputation.{parse_target, parse_tokens, parse_line, line_until, scan_until}
use budu_waf.Bans.{entry_line}

-- the token of the end of a ban
abbrev pub until_token : ℕ → Text
until_token until = lit "until=" ++ show_ℕ until

pub until_token-plain : (until : ℕ) → plain (until_token until) ≡ true
until_token-plain until =
    let digits : all is_digit (show_ℕ until) ≡ true = ground (arith, show_ℕ-all_digits until) in
    all-append (λ c. not (is_whitespace c) && not (c == b'#')) (lit "until=") (show_ℕ until) refl
      (digits-plain (show_ℕ until) digits)

scan_until-until_token :
    (until : ℕ) → until ≤ u64_max → scan_until (until_token until ∷ []) none ≡ some (some until)
unfolding scan_until strip_prefix
scan_until-until_token until h =
    rw (parse_unsigned-show_ℕ u64_max until h, scan_until, strip_prefix) refl

-- a ban has ended
abbrev pub has_ended : Option ℕ → ℕ → Bool
has_ended none now = false
has_ended (some until) now = leb until now

abbrev pub in_range : Option ℕ → Bool
in_range none = true
in_range (some until) = leb until u64_max

module _ (x : Externals) (net : x.Net) where
  -- What the printer of networks does: a text without blanks, which parses as the network.
  pub record IsPrinted : Type 0 where
    pub is_plain : plain (x.show_net net) ≡ true
    pub is_some : is_empty (x.show_net net) ≡ false
    pub parses : parse_target x (x.show_net net) ≡ some net

  -- the proxy reads the line of a ban as its entry, until the ban has ended
  pub parse_line-entry_line :
      (until : Option ℕ) (now : ℕ)
      → IsPrinted
      → in_range until ≡ true
      → parse_line x true (entry_line x net until) now
        ≡ (if has_ended until now then none else some (record { net = net; until = until }))
  unfolding entry_line parse_line parse_tokens line_until scan_until
  parse_line-entry_line none now h r =
      rw (tokens-plain (x.show_net net) h.is_plain h.is_some, h.parses, parse_line, parse_tokens)
        refl
  parse_line-entry_line (some until) now h r =
      let two =
        tokens-two (x.show_net net) (until_token until) h.is_plain h.is_some
          (until_token-plain until) refl in
      let scanned = scan_until-until_token until (leb→le until u64_max r) in
      rw (two, h.parses, scanned, parse_line, parse_tokens, line_until) (ground arith)
