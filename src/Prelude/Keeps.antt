-- ===== src/Prelude/Keeps.antt =====
-- What holds of every character of a text holds of every character of its parts.
use mathlib.Core.Path.{◌≡◌, refl, subst}
use mathlib.Core.Logic.{inl, inr}
use mathlib.Core.Option.{some}
use mathlib.Core.List.{List, [], ◌∷◌, reverse, reverse_aux}
use native.Mathlib.Omega.{arith}
use Prim.Native.Nat.{ℕ}
use budu_waf.Prelude.Tests.{◌==◌, Bool-cases, Option-cases}
use budu_waf.Prelude.Lists.{All, all}
use mathlib.Core.Bool.{Bool, true}
use budu_waf.Prelude.Strings.{
  Text, trim, trim_start, trim_end, strip_prefix, split_once, is_whitespace,
}

module _ (P : ℕ → Type 0) where
  All-reverse_aux : (xs ys : List ℕ) → All P xs → All P ys → All P (reverse_aux xs ys)
  All-reverse_aux [] ys h k = k
  All-reverse_aux (x ∷ xs) ys (p, h) k = All-reverse_aux xs (x ∷ ys) h (p, k)

  pub All-reverse : (xs : List ℕ) → All P xs → All P (reverse xs)
  All-reverse xs h = All-reverse_aux xs [] h tt

  All-trim_start : (s : Text) → All P s → All P (trim_start s)
  unfolding trim_start
  All-trim_start [] h = tt
  All-trim_start (c ∷ s) (p, h) = elim (Bool-cases (is_whitespace c)) [
    | inl e ↦ rw (e, trim_start) (All-trim_start s h)
    | inr e ↦ rw (e, trim_start) (p, h)
  ]

  All-trim_end : (s : Text) → All P s → All P (trim_end s)
  unfolding trim_end
  All-trim_end s h = All-reverse _ (All-trim_start (reverse s) (All-reverse s h))

  pub All-trim : (s : Text) → All P s → All P (trim s)
  unfolding trim
  All-trim s h = All-trim_end (trim_start s) (All-trim_start s h)

  pub All-strip_prefix : (p s : Text) {r : Text} → strip_prefix p s ≡ some r → All P s → All P r
  unfolding strip_prefix
  All-strip_prefix [] s {r} e h = subst (All P) (let same : s ≡ r = ground arith in same) h
  All-strip_prefix (x ∷ p) [] e h = absurd (cc)
  All-strip_prefix (x ∷ p) (c ∷ s) e (_, h) = All-strip_prefix p s (ground arith) h

  pub All-split_once :
      (c : ℕ) (s : Text) {a b : Text} → split_once c s ≡ some (a, b) → All P s → All P a × All P b
  unfolding split_once
  All-split_once c [] e h = absurd (cc)
  All-split_once c (x ∷ s) {a} {b} e (p, h) = elim (Bool-cases (x == c)) [
    | inl t ↦
        let head : [] ≡ a = ground arith in
        let rest : s ≡ b = ground arith in (subst (All P) head tt, subst (All P) rest h)
    | inr t ↦ elim (Option-cases (split_once c s)) [
      | inl n ↦ absurd (ground arith)
      | inr ((a', b'), q) ↦
          let (h₁, h₂) = All-split_once c s q h in
          let head : x ∷ a' ≡ a = ground arith in
          let rest : b' ≡ b = ground arith in (subst (All P) head (p, h₁), subst (All P) rest h₂)
    ]
  ]

module _ (p : ℕ → Bool) where
  all-reverse_aux :
      (xs ys : List ℕ) → all p xs ≡ true → all p ys ≡ true → all p (reverse_aux xs ys) ≡ true
  all-reverse_aux [] ys h k = k
  all-reverse_aux (x ∷ xs) ys h k = all-reverse_aux xs (x ∷ ys) (ground arith) (ground arith)

  pub all-reverse : (xs : List ℕ) → all p xs ≡ true → all p (reverse xs) ≡ true
  all-reverse xs h = all-reverse_aux xs [] h refl
