-- ===== src/Bans/Failures.antt =====
-- crates/budu/src/ban.rs: commands that fail.
use budu_waf.Prelude.{
  ℕ, ◌≡◌, refl, Bool, true, false, ◌==◌, Option, none, some, List, Text, trim, is_empty, length,
  eq_text, Bool-cases, inl, inr, is_none, if◌then◌else◌, Option-cases,
}
use budu_waf.External.{Externals}
use budu_waf.Reputation.{parse_target}
use budu_waf.Bans.{
  readable, Disk, Fault, no_fault, cannot_create, cannot_rename, cannot_write, BanError,
  write_failed, read_lines, unlines, write_lines, without, until_of, finish_ban, ban, finish_unban,
  unban,
}
use budu_waf.Bans.Listing.{put_other}

-- A write that fails leaves the file that it is for.
write_lines-fails :
    (disk : Disk) (fault : Fault) (tmp path : Text) (ls : List Text)
    → eq_text path tmp ≡ false
    → (write_lines disk fault tmp path ls).1 ≡ false
    → (write_lines disk fault tmp path ls).0 path ≡ disk path
unfolding write_lines
write_lines-fails disk no_fault tmp path ls h k = absurd (cc)
write_lines-fails disk cannot_create tmp path ls h k = refl
write_lines-fails disk cannot_rename tmp path ls h k =
    put_other tmp path (readable (unlines ls)) disk h
write_lines-fails disk (cannot_write part) tmp path ls h k =
    put_other tmp path (readable part) disk h

-- the outcome of a write
written : Disk × Bool → Disk × Option BanError
written (disk, fine) = (disk, if fine then none else some write_failed)

written-fails :
    (disk : Disk) (path : Text) (r : Disk × Bool)
    → (r.1 ≡ false → r.0 path ≡ disk path)
    → is_none (written r).1 ≡ false
    → (written r).0 path ≡ disk path
unfolding written
written-fails disk path (disk', true) k h = absurd (cc)
written-fails disk path (disk', false) k h = k refl

module _ (x : Externals) (tmp_of : Text → Text) (file target : Text) where
  module _ (fault : Fault) (disk : Disk)
      (apart : eq_text (trim file) (tmp_of (trim file)) ≡ false) where
    write-fails :
        (ls : List Text)
        → is_none (written (write_lines disk fault (tmp_of (trim file)) (trim file) ls)).1 ≡ false
        → (written (write_lines disk fault (tmp_of (trim file)) (trim file) ls)).0 (trim file)
          ≡ disk (trim file)
    write-fails ls =
        written-fails disk (trim file) (write_lines disk fault (tmp_of (trim file)) (trim file) ls)
          (write_lines-fails disk fault (tmp_of (trim file)) (trim file) ls apart)

    finish_ban-fails :
        (net : x.Net) (until : Option (Option ℕ))
        → is_none (finish_ban x disk fault (tmp_of (trim file)) (trim file) net until).1 ≡ false
        → (finish_ban x disk fault (tmp_of (trim file)) (trim file) net until).0 (trim file)
          ≡ disk (trim file)
    unfolding written
    finish_ban-fails net none h = refl
    finish_ban-fails net (some until) h = write-fails _ h

    finish_unban-fails :
        (net : x.Net)
        → is_none (finish_unban x disk fault (tmp_of (trim file)) (trim file) net).1 ≡ false
        → (finish_unban x disk fault (tmp_of (trim file)) (trim file) net).0 (trim file)
          ≡ disk (trim file)
    unfolding written
    finish_unban-fails net =
        elim (Bool-cases (
          length (read_lines disk (trim file))
          == length (without x (read_lines disk (trim file)) net))) [
            | inl e ↦ rw e (λ h. refl)
            | inr e ↦ rw e (write-fails (without x (read_lines disk (trim file)) net))
          ]

    ban-fails :
        (duration : Option Text) (now : ℕ)
        → is_none (ban x tmp_of file target duration now fault disk).1 ≡ false
        → (ban x tmp_of file target duration now fault disk).0 (trim file) ≡ disk (trim file)
    unfolding ban
    ban-fails duration now = elim (Option-cases (parse_target x target)) [
      | inl e ↦ rw (e, ban) (λ h. refl)
      | inr (net, e) ↦ elim (Bool-cases (is_empty (trim file))) [
        | inl b ↦ rw (e, ban) (rw b (λ h. refl))
        | inr b ↦ rw (e, ban) (rw b (finish_ban-fails net (until_of x duration now)))
      ]
    ]

    unban-fails :
        is_none (unban x tmp_of file target fault disk).1 ≡ false
        → (unban x tmp_of file target fault disk).0 (trim file) ≡ disk (trim file)
    unfolding unban
    unban-fails = elim (Option-cases (parse_target x target)) [
      | inl e ↦ rw (e, unban) (λ h. refl)
      | inr (net, e) ↦ elim (Bool-cases (is_empty (trim file))) [
        | inl b ↦ rw (e, unban) (rw b (λ h. refl))
        | inr b ↦ rw (e, unban) (rw b (finish_unban-fails net))
      ]
    ]

    -- A ban, or the lifting of one, that ends in an error, whatever it is (the address, the file's name, the
    -- duration, or any step of the write), leaves the list as it was; the temporary file is another
    -- file than the list.
    pub failed_edits :
        (duration : Option Text) (now : ℕ)
        → (is_none (ban x tmp_of file target duration now fault disk).1 ≡ false
            → (ban x tmp_of file target duration now fault disk).0 (trim file) ≡ disk (trim file))
          × (is_none (unban x tmp_of file target fault disk).1 ≡ false
              → (unban x tmp_of file target fault disk).0 (trim file) ≡ disk (trim file))
    failed_edits duration now = (ban-fails duration now, unban-fails)
