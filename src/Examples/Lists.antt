-- ===== src/Examples/Lists.antt =====
-- Theorems on the list commands, the supervisor and the configuration, at values.
use budu_waf.Prelude.{
  All, List, [], ◌∷◌, map, ◌≡◌, refl, true, false, not, none, some, is_none, ◌++◌, Text, lit, all,
  arith, eq_text, trim, parse_unsigned, if◌then◌else◌,
}
use budu_waf.Common.{IpAddr, v4}
use budu_waf.Reputation.{BlockEntry, perm, parse_target}
use budu_waf.Bans.{
  readable, missing, Disk, no_fault, cannot_rename, until_of, parse_duration, with_unit,
  write_lines, ban, unban,
}
use budu_waf.Bans.Entry.{IsPrinted}
use budu_waf.Bans.Loading.{reading, ban_ends}
use budu_waf.Bans.Shown.{Standing, list}
use budu_waf.Bans.Visible.{IsShown, list-IsShown}
use budu_waf.Supervisor.{Outside, loaded, load_list}
use budu_waf.Bans.Failures.{failed_edits}
use budu_waf.Examples.Toy.{toy}

abbrev pub net_c : Text
net_c = lit "4C"

abbrev pub disk : Disk
disk p = if eq_text p (lit "list") then readable (lit "4D # a comment\n4C until=5\n") else missing

abbrev pub tmp_of : Text → Text
tmp_of p = p ++ lit ".tmp"

pub printed : IsPrinted toy (v4 65)
unfolding parse_target
printed = record { is_plain = refl; is_some = refl; parses = refl }

minutes : parse_duration (lit "2m") ≡ some 120
unfolding parse_duration with_unit trim parse_unsigned
minutes = refl

pub two_minutes : until_of toy (some (lit "2m")) 1000 ≡ some (some 1120)
unfolding until_of parse_duration with_unit trim parse_unsigned
two_minutes = refl

pub good_target : parse_target toy net_c ≡ some (v4 65)
unfolding parse_target
good_target = refl

named_plainly : trim (lit "list") ≡ lit "list"
unfolding trim
named_plainly = refl

abbrev pub outside : Outside
outside = record {
  fail2ban = false;
  remote_blocklist = false;
  read_text = λ p. none;
  read_signatures = λ p. none;
  read_rules = λ p. none;
  client_ok = true;
  fetch = λ u. none;
}

ban_ends_example :
    (es : List (BlockEntry toy)) × (load_list toy
        (reading outside (ban toy tmp_of (lit "list") net_c (some (lit "2m")) 1000 no_fault disk).0)
        (v4 7 ∷ [])
        (lit "list")
        1120
      ≡ loaded (map (perm toy) (v4 7 ∷ []) ++ es))
    × (all (λ e. not (toy.net_eq e.net (v4 65))) es ≡ true)
unfolding trim
ban_ends_example =
    ban_ends toy tmp_of (lit "list") net_c (v4 65) disk good_target refl named_plainly outside
      (v4 7 ∷ []) refl (lit "2m") 120 1000 printed minutes 1120 (omega arith)

failed_edits_example :
    (is_none (ban toy tmp_of (lit "list") net_c (some (lit "2m")) 1000 cannot_rename disk).1 ≡ false
      → (ban toy tmp_of (lit "list") net_c (some (lit "2m")) 1000 cannot_rename disk).0
          (trim (lit "list"))
        ≡ disk (trim (lit "list")))
    × (is_none (unban toy tmp_of (lit "list") net_c cannot_rename disk).1 ≡ false
        → (unban toy tmp_of (lit "list") net_c cannot_rename disk).0 (trim (lit "list"))
          ≡ disk (trim (lit "list")))
unfolding trim
failed_edits_example =
    failed_edits toy tmp_of (lit "list") net_c cannot_rename disk refl (some (lit "2m")) 1000

-- a failed rename is an error
rename_fails :
    is_none (ban toy tmp_of (lit "list") net_c (some (lit "2m")) 1000 cannot_rename disk).1 ≡ false
unfolding ban write_lines parse_target trim until_of parse_duration with_unit parse_unsigned
rename_fails = refl

list-IsShown_example :
    (ss : List (IpAddr × Standing)) × (es : List (BlockEntry toy)) × (list toy (lit "list") 3 disk
      ≡ some ss)
    × (load_list toy (reading outside disk) [] (lit "list") 3 ≡ loaded es)
    × All (IsShown toy ss) es
unfolding trim
list-IsShown_example =
    list-IsShown toy outside disk (lit "list") (lit "4D # a comment\n4C until=5\n") 3 refl
      named_plainly refl
