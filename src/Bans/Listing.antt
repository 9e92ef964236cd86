-- ===== src/Bans/Listing.antt =====
-- crates/budu/src/ban.rs, crates/budu-reputation/src/lib.rs: the entries of the list's text after an edit.
use budu_waf.Prelude.{
  all-append, ℕ, ◌≡◌, refl, ◌∙◌, ap, sym, true, false, ◌==◌, Option, none, some, List, [], ◌∷◌,
  ◌++◌, Text, all, length, eq_text, eq_text_refl, Bool-cases, inl, inr, if◌then◌else◌,
}
use budu_waf.External.{Externals}
use budu_waf.Reputation.{BlockEntry, parse_lines, parse_line}
use budu_waf.Bans.{
  Content, missing, readable, Disk, put, no_fault, read_lines, content_lines, unlines, write_lines,
  without, entry_line, finish_ban, finish_unban,
}
use budu_waf.Bans.Lines.{one_line}
use budu_waf.Bans.Entry.{in_range, has_ended, IsPrinted, parse_line-entry_line}
use budu_waf.Bans.Edits.{
  is_clean, all-keep, keep-all, others, loaded, listed, loaded-parse_lines,
  content_lines-all-one_line, parse_lines-append, parse_lines-without, written-read,
  entry_line-one_line,
}

pub put_same :
    (path : Text) (content : Content) (disk : Disk) → put path content disk path ≡ content
put_same path content disk = rw (eq_text_refl path) refl

pub put_other :
    (tmp path : Text) (content : Content) (disk : Disk)
    → eq_text path tmp ≡ false
    → put tmp content disk path ≡ disk path
put_other tmp path content disk h = rw h refl

module _ (x : Externals) where
  -- the entry of a ban, while it has not ended
  abbrev pub in_force : x.Net → Option ℕ → ℕ → List (BlockEntry x)
  in_force net until now =
      if has_ended until now then [] else record { net = net; until = until } ∷ []

  entry-in_force :
      (net : x.Net) (until : Option ℕ) (now : ℕ)
      → parse_line x true (entry_line x net until) now
        ≡ (if has_ended until now then none else some (record { net = net; until = until }))
      → parse_lines x true (entry_line x net until ∷ []) now ≡ in_force net until now
  unfolding parse_lines
  entry-in_force net until now h = elim (Bool-cases (has_ended until now)) [
    | inl e ↦ rw (h, e, parse_lines) refl
    | inr e ↦ rw (h, e, parse_lines) refl
  ]

  edited-others :
      (content : Content) (net : x.Net) (now : ℕ)
      → is_clean content ≡ true
      → parse_lines x true (without x (content_lines content) net) now
        ≡ others x net (loaded x content now)
  edited-others content net now h =
      parse_lines-without x (content_lines content) net now
      ∙ ap (others x net) (sym (loaded-parse_lines x content now))

  new_lines : Disk → Text → x.Net → Option ℕ → List Text
  new_lines disk path net until =
      without x (read_lines disk path) net ++ (entry_line x net until ∷ [])

  new_lines-one_line :
      (disk : Disk) (path : Text) (net : x.Net) (until : Option ℕ)
      → is_clean (disk path) ≡ true
      → IsPrinted x net
      → all one_line (new_lines disk path net until) ≡ true
  unfolding new_lines without
  new_lines-one_line disk path net until h p =
      all-append one_line (without x (read_lines disk path) net) (entry_line x net until ∷ [])
        (all-keep _ one_line (read_lines disk path) (content_lines-all-one_line x (disk path) h))
        (rw (entry_line-one_line x net until p) refl)

  new_lines-parse_lines :
      (disk : Disk) (path : Text) (net : x.Net) (until : Option ℕ) (now : ℕ)
      → is_clean (disk path) ≡ true
      → IsPrinted x net
      → in_range until ≡ true
      → parse_lines x true (new_lines disk path net until) now
        ≡ others x net (listed x disk path now) ++ in_force net until now
  unfolding new_lines
  new_lines-parse_lines disk path net until now h p r =
      let entry = entry-in_force net until now (parse_line-entry_line x net until now p r) in
      parse_lines-append x (without x (read_lines disk path) net) (entry_line x net until ∷ []) now
      ∙ ap (λ es. es ++ parse_lines x true (entry_line x net until ∷ []) now)
          (edited-others (disk path) net now h)
      ∙ ap (λ es. others x net (listed x disk path now) ++ es) entry

  pub finish_ban-listed :
      (disk : Disk) (tmp path : Text) (net : x.Net) (until : Option ℕ) (now : ℕ)
      → is_clean (disk path) ≡ true
      → IsPrinted x net
      → in_range until ≡ true
      → ((finish_ban x disk no_fault tmp path net (some until)).1 ≡ none)
        × (listed x (finish_ban x disk no_fault tmp path net (some until)).0 path now
            ≡ others x net (listed x disk path now) ++ in_force net until now)
  unfolding write_lines new_lines
  finish_ban-listed disk tmp path net until now h p r = (
    refl,
    ap (λ content. loaded x content now)
          (put_same path (readable (unlines (new_lines disk path net until)))
            (put tmp missing disk))
        ∙ written-read x (new_lines disk path net until) now
            (new_lines-one_line disk path net until h p)
        ∙ new_lines-parse_lines disk path net until now h p r,
  )

  -- Kept lines, written or left.
  pub finish_unban-listed :
      (disk : Disk) (tmp path : Text) (net : x.Net) (now : ℕ)
      → is_clean (disk path) ≡ true
      → ((finish_unban x disk no_fault tmp path net).1 ≡ none)
        × (listed x (finish_unban x disk no_fault tmp path net).0 path now
            ≡ others x net (listed x disk path now))
  unfolding write_lines without
  finish_unban-listed disk tmp path net now h =
      let kept = without x (read_lines disk path) net in
      let edited = edited-others (disk path) net now h in
      elim (Bool-cases (length (read_lines disk path) == length kept)) [
        | inl e ↦
            let same : kept ≡ read_lines disk path = keep-all _ (read_lines disk path) e in
            rw e (
              refl,
              loaded-parse_lines x (disk path) now
                  ∙ ap (λ ls. parse_lines x true ls now) (sym same)
                  ∙ edited,
            )
        | inr e ↦
            let clean =
              all-keep _ one_line (read_lines disk path)
                (content_lines-all-one_line x (disk path) h) in
            rw e (
              refl,
              ap (λ content. loaded x content now)
                    (put_same path (readable (unlines kept)) (put tmp missing disk))
                  ∙ written-read x kept now clean
                  ∙ edited,
            )
      ]
