-- ===== src/Reputation/Prune.antt =====
-- crates/budu-reputation/src/lib.rs: pruning, and the entries that a list file gives.
use budu_waf.Prelude.{
  ℕ, ◌≤◌, ◌≡◌, refl, Bool, true, false, not, some, List, [], ◌∷◌, Text, arith, any, keep, All,
  Bool-cases, Option-cases, inl, inr, lines,
}
use budu_waf.Common.{IpAddr}
use budu_waf.External.{Externals}
use budu_waf.Reputation.{
  BlockEntry, active, matches, contains, prune_expired, line_until, parse_tokens, parse_line,
  parse_lines, parse_blocklist,
}

module _ (x : Externals) where
  -- an entry that has expired stays so
  active-later :
      (e : BlockEntry x) (now t : ℕ) → now ≤ t → active x e now ≡ false → active x e t ≡ false
  unfolding active
  active-later e now t h k = ground arith

  matches-expired :
      (e : BlockEntry x) (ip : IpAddr) (now t : ℕ)
      → now ≤ t
      → active x e now ≡ false
      → matches x e ip t ≡ false
  unfolding matches
  matches-expired e ip now t h k = ground (arith, active-later e now t h k)

  any-keep :
      (set : List (BlockEntry x)) (ip : IpAddr) (now t : ℕ)
      → now ≤ t
      → any (λ e. matches x e ip t) (keep (λ e. active x e now) set)
        ≡ any (λ e. matches x e ip t) set
  any-keep [] ip now t h = refl
  any-keep (e ∷ set) ip now t h = elim (Bool-cases (active x e now)) [
    | inl a ↦ rw (a, any-keep set ip now t h)
    | inr a ↦ rw (a, matches-expired e ip now t h a, any-keep set ip now t h)
  ]

  keep-active :
      (set : List (BlockEntry x)) (now : ℕ)
      → All (λ e. active x e now ≡ true) (keep (λ e. active x e now) set)
  keep-active [] now = tt
  keep-active (e ∷ set) now = elim (Bool-cases (active x e now)) [
    | inl a ↦ rw a (a, keep-active set now)
    | inr a ↦ rw a (keep-active set now)
  ]

  none-expired :
      (set : List (BlockEntry x)) (now : ℕ)
      → any (λ e. not (active x e now)) set ≡ false
      → All (λ e. active x e now ≡ true) set
  none-expired [] now h = tt
  none-expired (e ∷ set) now h = (ground arith, none-expired set now (ground arith))

  -- Pruning at some time leaves only entries in force, and no address is then, or at any later time,
  -- treated otherwise than by the list before.
  pub prune_expired_safe :
      (set : List (BlockEntry x)) (ip : IpAddr) (now t : ℕ)
      → now ≤ t
      → (contains x (prune_expired x set now) ip t ≡ contains x set ip t)
        × All (λ e. active x e now ≡ true) (prune_expired x set now)
  unfolding contains prune_expired
  prune_expired_safe set ip now t h = elim (Bool-cases (any (λ e. not (active x e now)) set)) [
    | inl a ↦ rw (a) (any-keep set ip now t h, keep-active set now)
    | inr a ↦ rw (a) (refl, none-expired set now a)
  ]

  no_expired :
      (set : List (BlockEntry x)) (now : ℕ)
      → All (λ e. active x e now ≡ true) set
      → any (λ e. not (active x e now)) set ≡ false
  no_expired [] now h = refl
  no_expired (e ∷ set) now (p, h) = rw (p, no_expired set now h)

  prune-active :
      (set : List (BlockEntry x)) (now : ℕ)
      → All (λ e. active x e now ≡ true) set
      → prune_expired x set now ≡ set
  unfolding prune_expired
  prune-active set now h = rw (no_expired set now h)

  parse_line-active :
      (fail2ban : Bool) (l : Text) (now : ℕ) (e : BlockEntry x)
      → parse_line x fail2ban l now ≡ some e
      → active x e now ≡ true
  unfolding parse_line parse_tokens line_until active
  parse_line-active true l now e h = ground arith
  parse_line-active false l now e h = ground arith

  parse_lines-active :
      (fail2ban : Bool) (ls : List Text) (now : ℕ)
      → All (λ e. active x e now ≡ true) (parse_lines x fail2ban ls now)
  unfolding parse_lines
  parse_lines-active fail2ban [] now = tt
  parse_lines-active fail2ban (l ∷ ls) now = elim (Option-cases (parse_line x fail2ban l now)) [
    | inl n ↦ rw (n, All) (parse_lines-active fail2ban ls now)
    | inr (e, p) ↦
        rw (p, All) (parse_line-active fail2ban l now e p, parse_lines-active fail2ban ls now)
  ]

  -- Whatever the text of a list, the entries that it gives are in force when it is read, in a build
  -- with expiring bans and in one without, so that pruning then changes nothing.
  pub parse_blocklist-active :
      (fail2ban : Bool) (text : Text) (now : ℕ)
      → All (λ e. active x e now ≡ true) (parse_blocklist x fail2ban text now)
        × (prune_expired x (parse_blocklist x fail2ban text now) now
            ≡ parse_blocklist x fail2ban text now)
  unfolding parse_blocklist
  parse_blocklist-active fail2ban text now =
      let h = parse_lines-active fail2ban (lines text) now in (h, prune-active _ now h)
