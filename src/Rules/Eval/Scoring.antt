-- ===== src/Rules/Eval/Scoring.antt =====
-- crates/budu-rules/src/ruleset.rs: the anomaly score of a request on which no rule decides.
use budu_waf.Prelude.{
  ℕ, ◌+◌, ◌≤◌, ◌≡◌, refl, sym, ap, ◌∙◌, Bool, ◌&&◌, none, some, List, [], ◌∷◌, Text, lit, arith,
  Bool-cases, Option-cases, inl, inr, ltb, leb, u32_max, saturating_add, if◌then◌else◌,
}
use budu_waf.Common.{RequestCtx}
use budu_waf.External.{Externals}
use budu_waf.Rules.Model.{CompiledRule, RuleSet, Action, blocked}
use budu_waf.Rules.Match.{all_request}
use budu_waf.Rules.Eval.{World, act, step, run_rules, anomaly, anomaly_reason, evaluate_inner}
use budu_waf.Rules.Eval.Spec.{run_rules-none, run_rules-some}

abbrev pub points : Action → ℕ
points (Action.score n) = n
points _ = 0

module _ (x : Externals) (ctx : RequestCtx x.Headers) (counting : Bool) (now : ℕ) where
  -- The points of a rule, if its conditions hold.
  abbrev pub hit : CompiledRule x → World x → ℕ
  hit r w = if all_request x r.conds ctx w.counters now then points r.action else 0

  -- The points of the rules whose conditions hold, each in the state that the rules before it leave.
  pub matched_points : List (CompiledRule x) → ℕ → World x → ℕ
  matched_points [] total w = 0
  matched_points (r ∷ rs) total w =
      let (o, total', w') = step x r ctx counting now total w in
      hit r w + matched_points rs total' w'

  act-points :
      (id : Text) (a : Action) (total : ℕ) (w : World x)
      → total ≤ u32_max
      → (act x id a ctx counting now total w).1 ≡ saturating_add u32_max total (points a)
  unfolding act
  act-points id (Action.score n) total w h = refl
  act-points id _ total w h = ground arith

  step-points :
      (r : CompiledRule x) (total : ℕ) (w : World x)
      → total ≤ u32_max
      → (step x r ctx counting now total w).1 ≡ saturating_add u32_max total (hit r w)
  unfolding step
  step-points r total w h = elim (Bool-cases (all_request x r.conds ctx w.counters now)) [
    | inl e ↦ rw e (act-points r.id r.action total w h)
    | inr e ↦ rw e (ground arith)
  ]

  saturating_add-twice :
      (t a b : ℕ)
      → saturating_add u32_max (saturating_add u32_max t a) b ≡ saturating_add u32_max t (a + b)
  saturating_add-twice t a b = ground arith

  saturating_add-le : (t a : ℕ) → saturating_add u32_max t a ≤ u32_max
  saturating_add-le t a = ground arith

  run_rules-points :
      (rs : List (CompiledRule x)) (total : ℕ) (w : World x) (score : ℕ) (w' : World x)
      → total ≤ u32_max
      → run_rules x rs ctx counting now total w ≡ (none, score, w')
      → score ≡ saturating_add u32_max total (matched_points rs total w)
  unfolding run_rules matched_points
  run_rules-points [] total w score w' h e = ground arith
  run_rules-points (r ∷ rs) total w score w' h e =
      elim (Option-cases (step x r ctx counting now total w).0) [
        | inl k ↦
            let (o, total₁, w₁) = step x r ctx counting now total w in
            let s : total₁ ≡ saturating_add u32_max total (hit r w) = step-points r total w h in
            run_rules-points rs total₁ w₁ score w' (rw s (saturating_add-le total (hit r w)))
              (sym (run_rules-none x ctx counting now r rs total w k) ∙ e)
            ∙ (ap (λ (t : ℕ). saturating_add u32_max t (matched_points rs total₁ w₁)) s
                ∙ saturating_add-twice total (hit r w) (matched_points rs total₁ w₁))
        | inr (o, k) ↦ absurd (cc (run_rules-some x ctx counting now r rs total w o k))
      ]

  -- Where no rule decides, the score is the sum of the points of the rules whose conditions hold, up to
  -- the greatest 32-bit number, and the request is blocked exactly if a positive threshold is at most
  -- that sum.
  pub anomaly_exact :
      (rs : RuleSet x) (w : World x) (score : ℕ) (w' : World x)
      → rs.threshold ≤ u32_max
      → run_rules x rs.rules ctx counting now 0 w ≡ (none, score, w')
      → (evaluate_inner x rs ctx counting now w ≡ (
        if ltb 0 rs.threshold && leb rs.threshold (matched_points rs.rules 0 w)
            then some (blocked (lit "anomaly.score") rs.anomaly_status (anomaly_reason x rs score))
            else none,
        w',
      ))
        × (score ≡ saturating_add u32_max 0 (matched_points rs.rules 0 w))
  unfolding evaluate_inner anomaly
  anomaly_exact rs w score w' h e =
      let p = run_rules-points rs.rules 0 w score w' (omega arith) e in
      (rw e (ground (arith, p)), p)
