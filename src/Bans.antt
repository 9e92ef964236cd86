-- ===== src/Bans.antt =====
-- crates/budu/src/ban.rs: the commands that edit the list of banned networks. A file is its text, and a
-- path is a text; `with_extension("tmp")` is a parameter, and so is what goes wrong in a write.
pub mod Lines
pub mod Entry
pub mod Edits
pub mod Listing
pub mod Commands
pub mod Loading
pub mod Failures
pub mod Shown
pub mod Visible
use budu_waf.Prelude.{
  ℕ, ◌==◌, Bool, true, false, not, Option, none, some, List, [], ◌∷◌, ◌++◌, Text, lit, eq_text,
  trim, before, lines, split_whitespace, parse_unsigned, u64_max, saturating_add, saturating_mul,
  show_ℕ, keep, is_empty, is_some_and, length, if◌then◌else◌,
}
use mathlib.Core.List.{reverse}
use budu_waf.External.{Externals}
use budu_waf.Reputation.{parse_target}

-- `read_to_string` gives nothing for a file that is missing or is no text.
pub data Content : Type 0 where
  missing unreadable : Content
  readable : Text → Content

abbrev pub Disk : Type 0
Disk = Text → Content

abbrev pub put : Text → Content → Disk → Disk
put path content disk p = if eq_text p path then content else disk p

-- what goes wrong in one `write_lines`: a failing write leaves a part of the text
pub data Fault : Type 0 where
  no_fault cannot_create cannot_rename : Fault
  cannot_write : (part : Text) → Fault

pub data BanError : Type 0 where
  bad_target no_blocklist bad_duration write_failed : BanError

-- a number of units of `mult` seconds
abbrev pub units : Text → ℕ → Option ℕ
units num mult = elim (parse_unsigned u64_max (trim num)) [
  | none ↦ none
  | some n ↦ some (saturating_mul u64_max n mult)
]

-- the unit by the last character, in front of the characters before it from the right
unfoldable pub with_unit : Text → Option ℕ
with_unit [] = none
with_unit (c ∷ num) =
    if c == b's'
    then units (reverse num) 1
    else if c == b'm'
    then units (reverse num) 60
    else if c == b'h'
    then units (reverse num) 3600
    else if c == b'd'
    then units (reverse num) 86400
    else none

unfoldable pub parse_duration : Text → Option ℕ
unfolding with_unit
parse_duration s = elim (parse_unsigned u64_max (trim s)) [
  | some n ↦ some n
  | none ↦ with_unit (reverse (trim s))
]

-- the path of the list, if one is configured
abbrev pub blocklist_path : Text → Option Text
blocklist_path blocklist_file =
    if is_empty (trim blocklist_file) then none else some (trim blocklist_file)

abbrev pub content_lines : Content → List Text
content_lines missing = []
content_lines unreadable = []
content_lines (readable text) = lines text

abbrev pub read_lines : Disk → Text → List Text
read_lines disk path = content_lines (disk path)

-- the text of the lines, each with its line feed
unfoldable pub unlines : List Text → Text
unlines [] = []
unlines (l ∷ ls) = l ++ (10 ∷ unlines ls)

-- `write_lines` with the temporary file `tmp`: the disk, and whether it went well
unfoldable pub write_lines : Disk → Fault → Text → Text → List Text → Disk × Bool
unfolding unlines
write_lines disk no_fault tmp path ls =
    (put path (readable (unlines ls)) (put tmp missing disk), true)
write_lines disk cannot_create tmp path ls = (disk, false)
write_lines disk cannot_rename tmp path ls = (put tmp (readable (unlines ls)) disk, false)
write_lines disk (cannot_write part) tmp path ls = (put tmp (readable part) disk, false)

module _ (x : Externals) where
  -- the first token of a line, as a network
  abbrev pub first_net : List Text → Option x.Net
  first_net [] = none
  first_net (tok ∷ toks) = parse_target x tok

  unfoldable pub line_net : Text → Option x.Net
  line_net line = first_net (split_whitespace (trim (before b'#' line)))

  unfoldable pub without : List Text → x.Net → List Text
  unfolding line_net
  without ls target = keep (λ l. not (is_some_and (line_net l) (λ net. x.net_eq net target))) ls

  -- the line that is added, with the end of the ban
  unfoldable pub entry_line : x.Net → Option ℕ → Text
  entry_line net none = x.show_net net
  entry_line net (some until) = x.show_net net ++ (lit " until=" ++ show_ℕ until)

  -- the end of a ban: `none` is a duration that does not parse
  unfoldable pub until_of : Option Text → ℕ → Option (Option ℕ)
  unfolding parse_duration
  until_of none now = some none
  until_of (some d) now = elim (parse_duration d) [
    | none ↦ none
    | some secs ↦ some (some (saturating_add u64_max now secs))
  ]

  -- `ban` after its arguments are read, and before the reload
  abbrev pub finish_ban :
      Disk → Fault → Text → Text → x.Net → Option (Option ℕ) → Disk × Option BanError
  finish_ban disk fault tmp path net none = (disk, some bad_duration)
  finish_ban disk fault tmp path net (some until) =
      let (disk', fine) =
        write_lines disk fault tmp path
          (without (read_lines disk path) net ++ (entry_line net until ∷ [])) in
      (disk', if fine then none else some write_failed)

  -- The command `ban`, up to the signal to a running proxy. `tmp_of` is `with_extension("tmp")`.
  unfoldable pub ban :
      (Text → Text) → Text → Text → Option Text → ℕ → Fault → Disk → Disk × Option BanError
  unfolding write_lines without entry_line until_of
  ban tmp_of blocklist_file target duration now fault disk = elim (parse_target x target) [
    | none ↦ (disk, some bad_target)
    | some net ↦ elim (blocklist_path blocklist_file) [
      | none ↦ (disk, some no_blocklist)
      | some path ↦ finish_ban disk fault (tmp_of path) path net (until_of duration now)
    ]
  ]

  -- `unban` with its arguments: nothing is written if nothing is removed
  abbrev pub finish_unban : Disk → Fault → Text → Text → x.Net → Disk × Option BanError
  finish_unban disk fault tmp path net =
      let kept = without (read_lines disk path) net in
      if length (read_lines disk path) == length kept
      then (disk, none)
      else let (disk', fine) = write_lines disk fault tmp path kept in
        (disk', if fine then none else some write_failed)

  unfoldable pub unban : (Text → Text) → Text → Text → Fault → Disk → Disk × Option BanError
  unfolding write_lines without
  unban tmp_of blocklist_file target fault disk = elim (parse_target x target) [
    | none ↦ (disk, some bad_target)
    | some net ↦ elim (blocklist_path blocklist_file) [
      | none ↦ (disk, some no_blocklist)
      | some path ↦ finish_unban disk fault (tmp_of path) path net
    ]
  ]
