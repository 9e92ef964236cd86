-- ===== src/Bans/Edits.antt =====
-- crates/budu/src/ban.rs, crates/budu-reputation/src/lib.rs: what `ban` and `unban` do to the entries of the
-- list's text.
use budu_waf.Prelude.{
  all-append, plain, ℕ, ◌≡◌, refl, ◌∙◌, ap, Bool, true, not, ◌&&◌, ◌==◌, Option, none, some, List,
  [], ◌∷◌, ◌++◌, Text, lit, all, arith, is_whitespace, trim, keep, show_ℕ, is_some_and, length,
  length-keep, Bool-cases, inl, inr, Option-cases, split_whitespace, before,
}
use budu_waf.External.{Externals}
use budu_waf.Reputation.{
  BlockEntry, parse_target, parse_tokens, parse_line, parse_lines, parse_blocklist, line_until,
}
use budu_waf.Bans.{
  Content, missing, unreadable, readable, Disk, content_lines, unlines, line_net, first_net,
  without, entry_line, until_of,
}
use budu_waf.Bans.Lines.{one_line, no_cr, lines-unlines, lines-all-one_line}
use budu_waf.Bans.Entry.{until_token-plain, in_range, IsPrinted}

-- a text of the list, as far as its line ends go
abbrev pub is_clean : Content → Bool
is_clean missing = true
is_clean unreadable = true
is_clean (readable text) = no_cr text

pub all-keep {ℓ} :
    {A : Type ℓ} (p q : A → Bool) (xs : List A) → all q xs ≡ true → all q (keep p xs) ≡ true
all-keep p q [] h = refl
all-keep p q (a ∷ xs) h = ground (arith, all-keep p q xs)

pub keep-all {ℓ} :
    {A : Type ℓ} (p : A → Bool) (xs : List A)
    → (length xs == length (keep p xs)) ≡ true
    → keep p xs ≡ xs
keep-all p [] h = refl
keep-all p (a ∷ xs) h = elim (Bool-cases (p a)) [
  | inl e ↦ rw e (ap (λ r. a ∷ r) (keep-all p xs (ground arith)))
  | inr e ↦ absurd (ground (arith, length-keep p xs))
]

all-weaken :
    (p q : ℕ → Bool) (s : Text)
    → ((c : ℕ) → p c ≡ true → q c ≡ true)
    → all p s ≡ true
    → all q s ≡ true
all-weaken p q [] k h = refl
all-weaken p q (c ∷ s) k h =
    let here = k c (ground arith) in
    let later = all-weaken p q s k (ground arith) in ground (arith, here, later)

plain_char-one_line :
    (p q : Bool) (c : ℕ)
    → (not p && not q) ≡ true
    → ((c == 10) ≡ true → p ≡ true)
    → ((c == 13) ≡ true → p ≡ true)
    → (not (c == 10) && not (c == 13)) ≡ true
plain_char-one_line p q c h k l = ground (arith, k, l)

is_whitespace-at : (c d : ℕ) → is_whitespace d ≡ true → (c == d) ≡ true → is_whitespace c ≡ true
is_whitespace-at c d h e = let same : c ≡ d = ground arith in ap is_whitespace same ∙ h

plain-one_line : (s : Text) → plain s ≡ true → one_line s ≡ true
plain-one_line s =
    all-weaken _ (λ c. not (c == 10) && not (c == 13)) s
      (λ c h.
        plain_char-one_line (is_whitespace c) (c == b'#') c h (is_whitespace-at c 10 refl)
          (is_whitespace-at c 13 refl))

module _ (x : Externals) where
  -- the entries of another network
  abbrev pub others : x.Net → List (BlockEntry x) → List (BlockEntry x)
  others net es = keep (λ e. not (x.net_eq e.net net)) es

  -- the entries of a content's text, none where there is no text, and those of a file's text
  abbrev pub loaded : Content → ℕ → List (BlockEntry x)
  loaded missing now = []
  loaded unreadable now = []
  loaded (readable text) now = parse_blocklist x true text now

  abbrev pub listed : Disk → Text → ℕ → List (BlockEntry x)
  listed disk path now = loaded (disk path) now

  pub loaded-parse_lines :
      (content : Content) (now : ℕ)
      → loaded content now ≡ parse_lines x true (content_lines content) now
  unfolding parse_blocklist parse_lines
  loaded-parse_lines missing now = refl
  loaded-parse_lines unreadable now = refl
  loaded-parse_lines (readable text) now = refl

  pub content_lines-all-one_line :
      (content : Content) → is_clean content ≡ true → all one_line (content_lines content) ≡ true
  content_lines-all-one_line missing h = refl
  content_lines-all-one_line unreadable h = refl
  content_lines-all-one_line (readable text) h = lines-all-one_line text h

  pub parse_lines-append :
      (ls ms : List Text) (now : ℕ)
      → parse_lines x true (ls ++ ms) now ≡ parse_lines x true ls now ++ parse_lines x true ms now
  unfolding parse_lines
  parse_lines-append [] ms now = refl
  parse_lines-append (l ∷ ls) ms now = elim (Option-cases (parse_line x true l now)) [
    | inl e ↦ rw (e, parse_lines) (parse_lines-append ls ms now)
    | inr (a, e) ↦ rw (e, parse_lines) (ap (λ r. a ∷ r) (parse_lines-append ls ms now))
  ]

  parse_tokens-first_net :
      (toks : List Text) (now : ℕ) {e : BlockEntry x}
      → parse_tokens x true toks now ≡ some e
      → first_net x toks ≡ some e.net
  unfolding parse_tokens
  parse_tokens-first_net [] now h = absurd (cc)
  parse_tokens-first_net (t ∷ toks) now {e} h = elim (Option-cases (parse_target x t)) [
    | inl n ↦ absurd (ground arith)
    | inr (net, s) ↦ elim (Option-cases (line_until true toks now)) [
      | inl n ↦ absurd (ground arith)
      | inr (until, u) ↦ let same : net ≡ e.net = ground arith in s ∙ ap some same
    ]
  ]

  -- an entry is of the network of its line
  parse_line-line_net :
      (l : Text) (now : ℕ) {e : BlockEntry x}
      → parse_line x true l now ≡ some e
      → line_net x l ≡ some e.net
  unfolding parse_line line_net
  parse_line-line_net l now h =
      parse_tokens-first_net (split_whitespace (trim (before b'#' l))) now h

  pub parse_lines-without :
      (ls : List Text) (net : x.Net) (now : ℕ)
      → parse_lines x true (without x ls net) now ≡ others net (parse_lines x true ls now)
  unfolding parse_lines without
  parse_lines-without [] net now = refl
  parse_lines-without (l ∷ ls) net now =
      let later = parse_lines-without ls net now in
      elim (Option-cases (parse_line x true l now)) [
        | inl n ↦ elim (Bool-cases (is_some_and (line_net x l) (λ m. x.net_eq m net))) [
          | inl b ↦ rw (b, n, parse_lines) later
          | inr b ↦ rw (b, parse_lines) (rw (n, parse_lines) later)
        ]
        | inr (e, s) ↦
            let of_line = parse_line-line_net l now s in
            elim (Bool-cases (x.net_eq e.net net)) [
              | inl b ↦ rw (of_line, s, b, parse_lines) later
              | inr b ↦
                  rw (of_line, s, b, parse_lines) (rw (s, parse_lines) (ap (λ r. e ∷ r) later))
            ]
      ]

  pub written-read :
      (ls : List Text) (now : ℕ)
      → all one_line ls ≡ true
      → loaded (readable (unlines ls)) now ≡ parse_lines x true ls now
  unfolding parse_blocklist
  written-read ls now h = ap (λ ms. parse_lines x true ms now) (lines-unlines ls h)

  pub until_of-in_range :
      (duration : Option Text) (now : ℕ) (until : Option ℕ)
      → until_of x duration now ≡ some until
      → in_range until ≡ true
  unfolding until_of
  until_of-in_range duration now none h = refl
  until_of-in_range none now (some u) h = absurd (ground arith)
  until_of-in_range (some d) now (some u) h = ground arith

  pub entry_line-one_line :
      (net : x.Net) (until : Option ℕ) → IsPrinted x net → one_line (entry_line x net until) ≡ true
  unfolding entry_line
  entry_line-one_line net none h = plain-one_line (x.show_net net) h.is_plain
  entry_line-one_line net (some until) h =
      all-append (λ c. not (c == 10) && not (c == 13)) (x.show_net net)
        (lit " until=" ++ show_ℕ until) (plain-one_line (x.show_net net) h.is_plain)
        (plain-one_line (lit "until=" ++ show_ℕ until) (until_token-plain until))
