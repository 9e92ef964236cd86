-- ===== src/Prelude/Blanks.antt =====
-- Texts without white space, and what trimming and splitting make of them.
use Prim.Native.Nat.{ℕ}
use mathlib.Core.Path.{◌≡◌, refl, sym, ap, ◌∙◌}
use mathlib.Core.Bool.{Bool, true, false, ◌&&◌, not}
use mathlib.Core.List.{
  List, [], ◌∷◌, ◌++◌, reverse, reverse-append, reverse-reverse, reverse-cons, append-nil,
  append_assoc,
}
use native.Mathlib.Omega.{arith}
use budu_waf.Prelude.Tests.{◌==◌}
use budu_waf.Prelude.Lists.{all, any, is_empty}
use budu_waf.Prelude.Keeps.{all-reverse}
use budu_waf.Prelude.Strings.{
  Text, is_whitespace, is_digit, before, trim, trim_start, trim_end, split_spaces, split_whitespace,
}

-- no white space, and no mark of a comment
abbrev pub plain : Text → Bool
plain s = all (λ c. not (is_whitespace c) && not (c == b'#')) s

unfoldable pub no_space : Text → Bool
no_space s = all (λ c. not (is_whitespace c)) s

pub all-both :
    (p q : ℕ → Bool) (s : Text)
    → all (λ c. p c && q c) s ≡ true
    → (all p s ≡ true) × (all q s ≡ true)
all-both p q [] h = (refl, refl)
all-both p q (c ∷ s) h =
    let (a, b) = all-both p q s (ground arith) in (ground (arith, a), ground (arith, b))

pub plain-no_space : (s : Text) → plain s ≡ true → no_space s ≡ true
unfolding no_space
plain-no_space s h = (all-both (λ c. not (is_whitespace c)) (λ c. not (c == b'#')) s h).0

pub plain-no_mark : (s : Text) → plain s ≡ true → all (λ c. not (c == b'#')) s ≡ true
plain-no_mark s h = (all-both (λ c. not (is_whitespace c)) (λ c. not (c == b'#')) s h).1

pub digits-plain : (s : Text) → all is_digit s ≡ true → plain s ≡ true
digits-plain [] h = refl
digits-plain (c ∷ s) h = ground (arith, digits-plain s)

pub before-plain : (s : Text) → all (λ c. not (c == b'#')) s ≡ true → before b'#' s ≡ s
unfolding before
before-plain [] h = refl
before-plain (c ∷ s) h = ground (arith, before-plain s)

pub trim_start-append :
    (r s : Text) → no_space r ≡ true → is_empty r ≡ false → trim_start (r ++ s) ≡ r ++ s
unfolding trim_start no_space
trim_start-append [] s h k = absurd (cc)
trim_start-append (c ∷ r) s h k =
    let e : is_whitespace c ≡ false = ground arith in rw (e, trim_start) refl

reverse_some : (s : Text) → is_empty s ≡ false → is_empty (reverse s) ≡ false
reverse_some [] h = h
reverse_some (c ∷ s) h = ap is_empty (reverse-cons c s) ∙ append_some (reverse s) c
  where
    append_some : (r : Text) (c : ℕ) → is_empty (r ++ (c ∷ [])) ≡ false
    append_some [] c = refl
    append_some (d ∷ r) c = refl

trim_end-append :
    (front last : Text)
    → no_space last ≡ true
    → is_empty last ≡ false
    → trim_end (front ++ last) ≡ front ++ last
unfolding trim_end no_space
trim_end-append front last h k =
    let back = reverse-append front last in
    let whole =
      trim_start-append (reverse last) (reverse front)
        (all-reverse (λ c. not (is_whitespace c)) last h) (reverse_some last k) in
    ap (λ r. reverse (trim_start r)) back
    ∙ ap reverse whole
    ∙ ap reverse (sym back)
    ∙ reverse-reverse (front ++ last)

-- A text that neither begins nor ends with white space is not trimmed.
pub trim-ends :
    (s first rest front last : Text)
    → s ≡ first ++ rest
    → s ≡ front ++ last
    → no_space first ≡ true
    → is_empty first ≡ false
    → no_space last ≡ true
    → is_empty last ≡ false
    → trim s ≡ s
unfolding trim
trim-ends s first rest front last e f h hs k ks =
    ap (λ t. trim_end (trim_start t)) e
    ∙ ap trim_end (trim_start-append first rest h hs ∙ sym e ∙ f)
    ∙ trim_end-append front last k ks
    ∙ sym f

pub split_spaces-no_space : (s : Text) → no_space s ≡ true → split_spaces s ≡ s ∷ []
unfolding split_spaces no_space
split_spaces-no_space [] h = refl
split_spaces-no_space (c ∷ s) h =
    let e : is_whitespace c ≡ false = ground arith in
    rw (e, split_spaces-no_space s (ground arith)) refl

split_spaces-space :
    (s rest : Text) → no_space s ≡ true → split_spaces (s ++ (b' ' ∷ rest)) ≡ s ∷ split_spaces rest
unfolding split_spaces no_space
split_spaces-space [] rest h = refl
split_spaces-space (c ∷ s) rest h =
    let e : is_whitespace c ≡ false = ground arith in
    rw (e, split_spaces-space s rest (ground arith)) refl

-- the tokens of a text before its comment
abbrev pub tokens : Text → List Text
tokens s = split_whitespace (trim (before b'#' s))

pub all-append {ℓ} :
    {A : Type ℓ} (p : A → Bool) (s t : List A)
    → all p s ≡ true
    → all p t ≡ true
    → all p (s ++ t) ≡ true
all-append p [] t h k = k
all-append p (c ∷ s) t h k = ground (arith, all-append p s t)

pub any-append_left {ℓ} :
    {A : Type ℓ} (p : A → Bool) (s t : List A) → any p s ≡ true → any p (s ++ t) ≡ true
any-append_left p [] t h = absurd (cc)
any-append_left p (c ∷ s) t h = ground (arith, any-append_left p s t)

pub any-append_right {ℓ} :
    {A : Type ℓ} (p : A → Bool) (s t : List A) → any p t ≡ true → any p (s ++ t) ≡ true
any-append_right p [] t h = h
any-append_right p (c ∷ s) t h = ground (arith, any-append_right p s t)

pub tokens-plain : (s : Text) → plain s ≡ true → is_empty s ≡ false → tokens s ≡ s ∷ []
unfolding split_whitespace
tokens-plain s h k =
    let blank = plain-no_space s h in
    rw
      (
        before-plain s (plain-no_mark s h),
        trim-ends s s [] [] s (sym (append-nil s)) refl blank k blank k,
        split_spaces-no_space s blank,
      )
      (ground (arith, k))

pub tokens-two :
    (s t : Text)
    → plain s ≡ true
    → is_empty s ≡ false
    → plain t ≡ true
    → is_empty t ≡ false
    → tokens (s ++ (b' ' ∷ t)) ≡ s ∷ t ∷ []
unfolding split_whitespace
tokens-two s t h hs k ks =
    let whole = s ++ (b' ' ∷ t) in
    let mark =
      all-append (λ c. not (c == b'#')) s (b' ' ∷ t) (plain-no_mark s h) (plain-no_mark t k) in
    let trimmed =
      trim-ends whole s (b' ' ∷ t) (s ++ (b' ' ∷ [])) t refl (sym (append_assoc s (b' ' ∷ []) t))
        (plain-no_space s h) hs (plain-no_space t k) ks in
    let pieces =
      split_spaces-space s t (plain-no_space s h)
      ∙ ap (λ r. s ∷ r) (split_spaces-no_space t (plain-no_space t k)) in
    rw (before-plain whole mark, trimmed, pieces) (ground (arith, hs, ks))
