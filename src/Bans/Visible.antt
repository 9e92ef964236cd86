-- ===== src/Bans/Visible.antt =====
-- crates/budu/src/ban.rs, crates/budu-reputation/src/lib.rs: the list of bans against what the proxy's loader
-- makes of the same file.
use mathlib.Core.List.{Memᴰ}
use budu_waf.Prelude.{
  ℕ, ◌≡◌, refl, true, false, some, List, [], ◌∷◌, Text, trim, before, is_empty, All, Option-cases,
  inl, inr,
}
use budu_waf.External.{Externals}
use budu_waf.Reputation.{BlockEntry, parse_line, parse_lines, parse_blocklist, build_blocks}
use budu_waf.Bans.{readable, Disk, read_lines}
use budu_waf.Bans.Shown.{Standing, shown_body, shown, list, shown-loaded}
use budu_waf.Bans.Loading.{reading}
use budu_waf.Supervisor.{Outside, loaded, load_list}

module _ (x : Externals) where
  -- The network of an entry is shown, with some standing.
  pub record IsShown (ss : List (x.Net × Standing)) (e : BlockEntry x) : Type 0 where
    pub with_standing : Standing
    pub is_in : Memᴰ (e.net, with_standing) ss

  IsShown-after :
      (s : x.Net × Standing) (ss : List (x.Net × Standing)) (es : List (BlockEntry x))
      → All (IsShown ss) es
      → All (IsShown (s ∷ ss)) es
  IsShown-after s ss [] h = tt
  IsShown-after s ss (e ∷ es) (k, h) = (
    record { with_standing = k.with_standing; is_in = Memᴰ.tail k.is_in },
    IsShown-after s ss es h,
  )

  -- every entry is shown
  record AllShown (ss : List (x.Net × Standing)) (es : List (BlockEntry x)) : Type 0 where
    pub all_shown : All (IsShown ss) es

  parse_lines-AllShown :
      (ls : List Text) (now : ℕ) → AllShown (shown x ls now) (parse_lines x true ls now)
  unfolding shown parse_lines
  parse_lines-AllShown [] now = record { all_shown = tt }
  parse_lines-AllShown (l ∷ ls) now =
      let rest = parse_lines-AllShown ls now in
      elim (Option-cases (parse_line x true l now)) [
        | inl p ↦ elim (Option-cases (shown_body x (trim (before b'#' l)) now)) [
          | inl q ↦ rw (p, q, shown, parse_lines) rest
          | inr (s, q) ↦
              rw (p, q, shown, parse_lines)
                (record { all_shown = IsShown-after s _ _ rest.all_shown })
        ]
        | inr (e, p) ↦
            let (s, q) = shown-loaded x l now e p in
            rw (p, q, shown, parse_lines)
              (record {
                all_shown = (
                  record { with_standing = s; is_in = Memᴰ.head refl },
                  IsShown-after _ _ _ rest.all_shown,
                );
              })
      ]

  -- Whatever text the list has, the command that lists the bans shows the network of every entry that
  -- the proxy's loader gives of the file at that time; the file's name has no blanks around it.
  pub list-IsShown :
      (out : Outside) (disk : Disk) (file text : Text) (now : ℕ)
      → is_empty (trim file) ≡ false
      → trim file ≡ file
      → disk file ≡ readable text
      → (ss : List (x.Net × Standing)) × (es : List (BlockEntry x)) × (list x file now disk
          ≡ some ss)
        × (load_list x (reading out disk) [] file now ≡ loaded es)
        × All (IsShown ss) es
  unfolding list load_list build_blocks parse_blocklist
  list-IsShown out disk file text now named plain held = (
    shown x (read_lines (λ p. readable text) file) now,
    parse_blocklist x true text now,
    rw (named, list) (rw (plain, held) refl),
    rw (named, load_list) (rw held refl),
    (parse_lines-AllShown (read_lines (λ p. readable text) file) now).all_shown,
  )
