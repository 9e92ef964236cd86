-- ===== src/Pipeline/Policy.antt =====
-- crates/budu-pipeline/src/lib.rs: the fail policy.
use budu_waf.Prelude.{◌≡◌, refl, ap, ◌∙◌, ◌↔◌, arith, ◌⊎◌, inl, inr, List, [], ◌∷◌, map}
use mathlib.Core.Path.{subst₂}
use budu_waf.Common.{ControlFlow, go_on, stop, allow}
use budu_waf.Pipeline.{Ran, returned, panicked, StageFn, fail_closed, fail_open, run}

module _ {S C : Type 0} where
  -- A stage whose panic counts as passing the request on.
  pub tolerate : StageFn S C → StageFn S C
  tolerate stage s c = elim (stage s c) [
    | returned s' c' flow ↦ returned s' c' flow
    | panicked s' c' ↦ returned s' c' go_on
  ]

  -- How a list of stages lets a request through when panics are not tolerated: each passes it on, up
  -- to the end or to one that allows it outright.
  pub data Passes : List (StageFn S C) → S → C → S → C → Type 0 where
    end : {s : S} {c : C} → Passes [] s c s c
    pass :
        {stage : StageFn S C} {stages : List (StageFn S C)} {s s' s'' : S} {c c' c'' : C}
        → stage s c ≡ returned s' c' go_on
        → Passes stages s' c' s'' c''
        → Passes (stage ∷ stages) s c s'' c''
    allowed :
        {stage : StageFn S C} {stages : List (StageFn S C)} {s s' : S} {c c' : C}
        → stage s c ≡ returned s' c' (stop allow)
        → Passes (stage ∷ stages) s c s' c'

  run-Passes :
      {stages : List (StageFn S C)} {s s' : S} {c c' : C}
      → Passes stages s c s' c'
      → run fail_closed stages s c ≡ (allow, s', c')
  unfolding run
  run-Passes end = refl
  run-Passes (pass e p) = rw (e, run) (run-Passes p)
  run-Passes (allowed e) = rw (e, run)

  Ran-cases :
      (r : Ran S C)
      → ((s : S) × (c : C) × (flow : ControlFlow) × (r ≡ returned s c flow))
        ⊎ ((s : S) × (c : C) × (r ≡ panicked s c))
  Ran-cases (returned s c flow) = inl (s, c, flow, refl)
  Ran-cases (panicked s c) = inr (s, c, refl)

  Passes-run :
      (stages : List (StageFn S C)) (s s' : S) (c c' : C)
      → run fail_closed stages s c ≡ (allow, s', c')
      → Passes stages s c s' c'
  unfolding run
  Passes-run [] s s' c c' e =
      subst₂ (λ a b. Passes [] s c a b) (ap (λ t. t.1) e) (ap (λ t. t.2) e) end
  Passes-run (stage ∷ stages) s s' c c' e = elim (Ran-cases (stage s c)) [
    | inl (s₁, c₁, go_on, h) ↦ pass h (Passes-run stages s₁ s' c₁ c' (rw (h, run) at e))
    | inl (s₁, c₁, stop d, h) ↦
        let e' : (d, s₁, c₁) ≡ (allow, s', c') = rw (h, run) at e in
        subst₂ (λ a b. Passes (stage ∷ stages) s c a b) (ap (λ t. t.1) e') (ap (λ t. t.2) e')
          (allowed (h ∙ ap (λ f. returned s₁ c₁ (stop f)) (ap (λ t. t.0) e')))
    | inr (s₁, c₁, h) ↦ absurd (ground arith)
  ]

  -- Failing closed, a request gets through a list of stages exactly if each stage returns and passes it
  -- on, up to the end or to one that allows it: a panic on the way never lets it through.
  pub run-fail_closed :
      (stages : List (StageFn S C)) (s s' : S) (c c' : C)
      → (run fail_closed stages s c ≡ (allow, s', c')) ↔ Passes stages s c s' c'
  run-fail_closed stages s s' c c' = (Passes-run stages s s' c c', run-Passes)

  -- Failing open is failing closed with every stage's panic counted as passing on: no later stage is
  -- skipped, and what the panicking stage left is what the next one sees.
  pub run-fail_open :
      (stages : List (StageFn S C)) (s : S) (c : C)
      → run fail_open stages s c ≡ run fail_closed (map tolerate stages) s c
  unfolding run tolerate
  run-fail_open [] s c = refl
  run-fail_open (stage ∷ stages) s c = elim (Ran-cases (stage s c)) [
    | inl (s₁, c₁, go_on, h) ↦ rw (h, run) (run-fail_open stages s₁ c₁)
    | inl (s₁, c₁, stop d, h) ↦ rw (h, run)
    | inr (s₁, c₁, h) ↦ rw (h, run) (run-fail_open stages s₁ c₁)
  ]
