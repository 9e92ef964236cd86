-- ===== src/Bans/Lines.antt =====
-- crates/budu/src/ban.rs: what is read back from a written list.
use budu_waf.Prelude.{
  ℕ, ◌≡◌, refl, ◌∙◌, ap, Bool, true, false, not, ◌&&◌, ◌==◌, none, List, [], ◌∷◌, ◌++◌, Text, all,
  arith, lines, split, all-reverse, push_head, chomp, chomp_all, strip_suffix, strip_prefix,
  Bool-cases, inl, inr,
}
use mathlib.Core.List.{reverse}
use budu_waf.Bans.{unlines}

-- a text with no line feed and no carriage return
abbrev pub one_line : Text → Bool
one_line s = all (λ c. not (c == 10) && not (c == 13)) s

abbrev pub no_cr : Text → Bool
no_cr s = all (λ c. not (c == 13)) s

split-one_line :
    (l rest : Text) → one_line l ≡ true → split 10 (l ++ (10 ∷ rest)) ≡ l ∷ split 10 rest
unfolding split
split-one_line [] rest h = refl
split-one_line (c ∷ l) rest h =
    let plain : (c == 10) ≡ false = ground arith in
    let later : one_line l ≡ true = ground arith in rw (plain, split-one_line l rest later) refl

strip_cr-no_cr : (r : Text) → no_cr r ≡ true → strip_prefix (13 ∷ []) r ≡ none
unfolding strip_prefix
strip_cr-no_cr [] h = refl
strip_cr-no_cr (c ∷ r) h = ground arith

-- a line without a carriage return is not shortened
chomp-no_cr : (l : Text) → no_cr l ≡ true → chomp l ≡ l
unfolding chomp strip_suffix
chomp-no_cr l h =
    rw (strip_cr-no_cr (reverse l) (all-reverse (λ c. not (c == 13)) l h), chomp, strip_suffix) refl

one_line-no_cr : (l : Text) → one_line l ≡ true → no_cr l ≡ true
one_line-no_cr [] h = refl
one_line-no_cr (c ∷ l) h = ground (arith, one_line-no_cr l)

chomp_all-more :
    (l m : Text) (ls : List Text) → chomp_all (l ∷ m ∷ ls) ≡ chomp l ∷ chomp_all (m ∷ ls)
unfolding chomp_all
chomp_all-more [] m ls = refl
chomp_all-more (c ∷ l) m ls = refl

split-unlines : (ls : List Text) → all one_line ls ≡ true → split 10 (unlines ls) ≡ ls ++ ([] ∷ [])
unfolding unlines split
split-unlines [] h = refl
split-unlines (l ∷ ls) h =
    let here : one_line l ≡ true = ground arith in
    let later : all one_line ls ≡ true = ground arith in
    split-one_line l (unlines ls) here ∙ ap (λ r. l ∷ r) (split-unlines ls later)

chomp_all-lines : (ls : List Text) → all one_line ls ≡ true → chomp_all (ls ++ ([] ∷ [])) ≡ ls
unfolding chomp_all
chomp_all-lines [] h = refl
chomp_all-lines (l ∷ []) h =
    let here : one_line l ≡ true = ground arith in
    chomp_all-more l [] [] ∙ ap (λ r. r ∷ []) (chomp-no_cr l (one_line-no_cr l here))
chomp_all-lines (l ∷ m ∷ ls) h =
    let here : one_line l ≡ true = ground arith in
    let later : all one_line (m ∷ ls) ≡ true = ground arith in
    chomp_all-more l m (ls ++ ([] ∷ []))
    ∙ ap (λ r. r ∷ chomp_all (m ∷ ls ++ ([] ∷ []))) (chomp-no_cr l (one_line-no_cr l here))
    ∙ ap (λ r. l ∷ r) (chomp_all-lines (m ∷ ls) later)

pub lines-unlines : (ls : List Text) → all one_line ls ≡ true → lines (unlines ls) ≡ ls
unfolding lines
lines-unlines ls h = ap chomp_all (split-unlines ls h) ∙ chomp_all-lines ls h

push_head-one_line :
    (c : ℕ) (ls : List Text)
    → (not (c == 10) && not (c == 13)) ≡ true
    → all one_line ls ≡ true
    → all one_line (push_head c ls) ≡ true
push_head-one_line c [] h k = ground arith
push_head-one_line c (l ∷ ls) h k = ground arith

split-all-one_line : (s : Text) → no_cr s ≡ true → all one_line (split 10 s) ≡ true
unfolding split
split-all-one_line [] h = refl
split-all-one_line (c ∷ s) h =
    let later = split-all-one_line s (ground arith) in
    elim (Bool-cases (c == 10)) [
      | inl e ↦ rw e later
      | inr e ↦ rw e (push_head-one_line c (split 10 s) (ground arith) later)
    ]

chomp_all-all-one_line :
    (ls : List Text) → all one_line ls ≡ true → all one_line (chomp_all ls) ≡ true
unfolding chomp_all
chomp_all-all-one_line [] h = refl
chomp_all-all-one_line ([] ∷ []) h = refl
chomp_all-all-one_line ((c ∷ l) ∷ []) h = h
chomp_all-all-one_line (l ∷ m ∷ ls) h =
    let here : one_line l ≡ true = ground arith in
    let later = chomp_all-all-one_line (m ∷ ls) (ground arith) in
    rw (chomp_all-more l m ls, chomp-no_cr l (one_line-no_cr l here)) (ground (arith, here, later))

-- the lines of a text without carriage returns
pub lines-all-one_line : (s : Text) → no_cr s ≡ true → all one_line (lines s) ≡ true
unfolding lines
lines-all-one_line s h = chomp_all-all-one_line (split 10 s) (split-all-one_line s h)
