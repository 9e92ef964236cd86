-- ===== src/Rules/Args/Multipart/Pieces.antt =====
-- crates/budu-rules/src/ruleset.rs: the pieces that split_on gives.
use budu_waf.Prelude.{
  ℕ, zero, suc, ◌-◌, ◌≡◌, refl, ap, ◌∙◌, true, false, List, [], ◌∷◌, ◌++◌, Bytes, starts_with, drop,
  length, is_empty, push_head, arith, Bool-cases, inl, inr,
}
use mathlib.Core.List.{append-nil}
use budu_waf.Rules.Args.Multipart.{split_from, split_on}

-- The pieces behind the first, each with the delimiter in front of it.
after : Bytes → List Bytes → Bytes
after needle [] = []
after needle (p ∷ ps) = needle ++ (p ++ after needle ps)

-- The pieces with the delimiter between them.
pub join : Bytes → List Bytes → Bytes
join needle [] = []
join needle (p ∷ ps) = p ++ after needle ps

starts_with-drop : (s p : Bytes) → starts_with s p ≡ true → p ++ drop (length p) s ≡ s
unfolding starts_with
starts_with-drop s [] h = refl
starts_with-drop [] (c ∷ p) h = absurd (cc)
starts_with-drop (b ∷ s) (c ∷ p) h =
    let same : c ≡ b = ground arith in
    ap (λ t. c ∷ t) (starts_with-drop s p (ground arith)) ∙ ap (λ t. t ∷ s) same

after-join :
    (needle : Bytes) (ps : List Bytes)
    → is_empty ps ≡ false
    → after needle ps ≡ needle ++ join needle ps
unfolding after join
after-join needle [] h = absurd (cc)
after-join needle (p ∷ ps) h = refl

join-push_head :
    (needle : Bytes) (b : ℕ) (ps : List Bytes) → join needle (push_head b ps) ≡ b ∷ join needle ps
unfolding join after
join-push_head needle b [] = refl
join-push_head needle b (p ∷ ps) = refl

push_head_some : (b : ℕ) (ps : List Bytes) → is_empty (push_head b ps) ≡ false
push_head_some b [] = refl
push_head_some b (p ∷ ps) = refl

split_from_some :
    (needle : Bytes) (skip : ℕ) (s : Bytes) → is_empty (split_from needle skip s) ≡ false
unfolding split_from
split_from_some needle skip [] = refl
split_from_some needle (suc skip) (b ∷ s) = split_from_some needle skip s
split_from_some needle zero (b ∷ s) = elim (Bool-cases (starts_with (b ∷ s) needle)) [
  | inl e ↦ rw (e, split_from) refl
  | inr e ↦ rw (e, split_from) (push_head_some b (split_from needle zero s))
]

join-split_from :
    (c : ℕ) (cs s : Bytes) (skip : ℕ) → join (c ∷ cs) (split_from (c ∷ cs) skip s) ≡ drop skip s
unfolding split_from join after
join-split_from c cs [] zero = refl
join-split_from c cs [] (suc skip) = refl
join-split_from c cs (b ∷ s) (suc skip) = join-split_from c cs s skip
join-split_from c cs (b ∷ s) zero = elim (Bool-cases (starts_with (b ∷ s) (c ∷ cs))) [
  | inl e ↦
      let n : suc (length cs) - 1 ≡ length cs = omega arith in
      rw (e, split_from)
        (after-join (c ∷ cs) _ (split_from_some (c ∷ cs) _ s)
          ∙ (ap (λ t. (c ∷ cs) ++ t) (join-split_from c cs s _)
              ∙ (ap (λ k. c ∷ (cs ++ drop k s)) n ∙ starts_with-drop (b ∷ s) (c ∷ cs) e)))
  | inr e ↦
      rw (e, split_from)
        (join-push_head (c ∷ cs) b _ ∙ ap (λ t. b ∷ t) (join-split_from c cs s zero))
]

-- Splitting loses nothing: the pieces with the delimiter between them are the bytes that were split.
pub join-split_on : (haystack needle : Bytes) → join needle (split_on haystack needle) ≡ haystack
unfolding split_on join after
join-split_on haystack [] = append-nil haystack
join-split_on haystack (c ∷ cs) = join-split_from c cs haystack zero
