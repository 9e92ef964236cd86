-- ===== src/Bans/Loading.antt =====
-- crates/budu/src/ban.rs, crates/budu-reputation/src/lib.rs: what the proxy's loader makes of the list after a
-- command, from the file as the command leaves it.
use budu_waf.Prelude.{
  ℕ, ◌+◌, ◌≤◌, ◌≡◌, refl, sym, ap, ◌∙◌, true, false, not, Option, none, some, List, [], ◌++◌, Text,
  all, all-append, map, arith, trim, is_empty, u64_max, saturating_add,
}
use budu_waf.External.{Externals}
use budu_waf.Reputation.{BlockEntry, perm, parse_target, build_blocks}
use budu_waf.Bans.{
  Content, missing, unreadable, readable, Disk, put, no_fault, write_lines, until_of,
  parse_duration, finish_ban, ban,
}
use budu_waf.Bans.Entry.{has_ended, IsPrinted}
use budu_waf.Bans.Edits.{is_clean, others, listed}
use budu_waf.Bans.Edits
use budu_waf.Bans.Listing.{put_same, in_force}
use budu_waf.Bans.Commands.{ban-finish_ban, ban-listed, no_others}
use budu_waf.Supervisor.{loaded, Outside, load_list}

-- what `read_to_string` gives
abbrev pub text_of : Content → Option Text
text_of missing = none
text_of unreadable = none
text_of (readable text) = some text

-- The system with these files, in a build that has the commands.
abbrev pub reading : Outside → Disk → Outside
reading out disk = record out { fail2ban = true; read_text = λ p. text_of (disk p) }

-- There is a text to read.
abbrev pub IsReadable : Content → Type 0
IsReadable content = (text : Text) × (content ≡ readable text)

module _ (x : Externals) where
  -- the loader on a file that can be read
  load_list-content :
      (out : Outside) (disk : Disk) (inline : List x.Net) (file : Text) (content : Content)
      (now : ℕ)
      → is_empty (trim file) ≡ false
      → disk file ≡ content
      → IsReadable content
      → load_list x (reading out disk) inline file now
        ≡ loaded (map (perm x) inline ++ Edits.loaded x content now)
  unfolding load_list build_blocks
  load_list-content out disk inline file content now n e (text, r) =
      rw (r, n, load_list) (rw (e ∙ r) refl)

  finish_ban-IsReadable :
      (disk : Disk) (tmp path : Text) (net : x.Net) (until : Option ℕ)
      → IsReadable ((finish_ban x disk no_fault tmp path net (some until)).0 path)
  unfolding write_lines
  finish_ban-IsReadable disk tmp path net until = (_, put_same path _ (put tmp missing disk))

  module _ (tmp_of : Text → Text) (file target : Text) (net : x.Net) (disk : Disk)
      (target_parses : parse_target x target ≡ some net) (configured : is_empty (trim file) ≡ false)
      (plain : trim file ≡ file) (out : Outside) (inline : List x.Net) where
    pub ban-loaded :
        is_clean (disk (trim file)) ≡ true
        → (duration : Option Text) (now : ℕ) (until : Option ℕ) → IsPrinted x net
        → until_of x duration now ≡ some until
        → (later : ℕ)
        → ((ban x tmp_of file target duration now no_fault disk).1 ≡ none)
          × (load_list x
                (reading out (ban x tmp_of file target duration now no_fault disk).0)
                inline
                file
                later
              ≡ loaded (
                  map (perm x) inline
                  ++ (others x net (listed x disk file later) ++ in_force x net until later)))
    ban-loaded clean duration now until p e later =
        let after = (ban x tmp_of file target duration now no_fault disk).0 in
        let (fine, edited) =
          ban-listed x tmp_of file target net disk target_parses configured clean duration now until
            p e later in
        let text : IsReadable (after (trim file)) =
          rw
            (
              ban-finish_ban x tmp_of file target net disk target_parses configured clean duration
                  now,
              e,
            )
            (finish_ban-IsReadable disk (tmp_of (trim file)) (trim file) net until) in
        (
          fine,
          load_list-content out after inline file (after (trim file)) later configured
                (sym (ap after plain)) text
              ∙ ap (λ es. loaded (map (perm x) inline ++ es))
                  (edited
                    ∙ ap (λ f. others x net (listed x disk f later) ++ in_force x net until later)
                        plain),
        )

    -- A ban with a duration is over once that has passed: from then on the proxy's loader, on the file as
    -- the ban left it, gives the inline networks and no entry of the network from the file. The
    -- file's name has no blanks around it, its text, if it has one, has no carriage returns, and what
    -- is printed of the network parses as it.
    pub ban_ends :
        is_clean (disk (trim file)) ≡ true
        → (d : Text) (secs now : ℕ) → IsPrinted x net
        → parse_duration d ≡ some secs
        → (later : ℕ) → now + secs ≤ later
        → (es : List (BlockEntry x)) × (load_list x
              (reading out (ban x tmp_of file target (some d) now no_fault disk).0)
              inline
              file
              later
            ≡ loaded (map (perm x) inline ++ es))
          × (all (λ e. not (x.net_eq e.net net)) es ≡ true)
    unfolding until_of
    ban_ends clean d secs now p e later h =
        let until = some (saturating_add u64_max now secs) in
        let over : has_ended until later ≡ true = ground arith in
        let after = (ban-loaded clean (some d) now until p (rw (e, until_of) refl) later).1 in
        (
          _,
          after,
          rw over (
              all-append _ (others x net (listed x disk file later)) []
                (no_others x tmp_of file target net disk target_parses configured clean _) refl),
        )
