-- ===== src/Rules/Eval/Spec.antt =====
-- crates/budu-rules/src/ruleset.rs: which rule of the request phase decides.
use budu_waf.Prelude.{
  ℕ, ◌≡◌, ◌<◌, ◌≤◌, ◌⊎◌, lit, refl, sym, ap, ◌∙◌, Bool, true, Option, none, some, List, [], ◌∷◌,
  ◌++◌, arith, Option-cases, inl, inr,
}
use budu_waf.Common.{RequestCtx}
use budu_waf.External.{Externals}
use budu_waf.Rules.Model.{CompiledRule, RuleSet, Outcome, blocked}
use budu_waf.Rules.Match.{all_request}
use budu_waf.Rules.Eval.{World, act, step, run_rules, anomaly, anomaly_reason, evaluate_inner}

module _ (x : Externals) (ctx : RequestCtx x.Headers) (counting : Bool) (now : ℕ) where
  -- The rules split at the one that decides: those in front of it come to no outcome, its conditions
  -- hold in the state that they leave, and its action gives the outcome.
  pub record Decides (rules : List (CompiledRule x)) (total : ℕ) (w : World x) (out : Outcome)
      (total' : ℕ) (w' : World x) : Type 0 where
    pub front : List (CompiledRule x)
    pub rule : CompiledRule x
    pub back : List (CompiledRule x)
    pub score : ℕ
    pub state : World x
    pub listed : rules ≡ front ++ (rule ∷ back)
    pub undecided : run_rules x front ctx counting now total w ≡ (none, score, state)
    pub holds : all_request x rule.conds ctx state.counters now ≡ true
    pub acts : act x rule.id rule.action ctx counting now score state ≡ (some out, total', w')

  step-some :
      (r : CompiledRule x) (total : ℕ) (w : World x) (out : Outcome) (total' : ℕ) (w' : World x)
      → step x r ctx counting now total w ≡ (some out, total', w')
      → (all_request x r.conds ctx w.counters now ≡ true)
        × (act x r.id r.action ctx counting now total w ≡ (some out, total', w'))
  unfolding step
  step-some r total w out total' w' h = ground arith

  abbrev pub stepped : CompiledRule x → ℕ → World x → Option Outcome × ℕ × World x
  stepped r total w = step x r ctx counting now total w

  pub run_rules-none :
      (r : CompiledRule x) (rs : List (CompiledRule x)) (total : ℕ) (w : World x)
      → (stepped r total w).0 ≡ none
      → run_rules x (r ∷ rs) ctx counting now total w
        ≡ run_rules x rs ctx counting now (stepped r total w).1 (stepped r total w).2
  unfolding run_rules
  run_rules-none r rs total w e = rw (e, run_rules)

  pub run_rules-some :
      (r : CompiledRule x) (rs : List (CompiledRule x)) (total : ℕ) (w : World x) (o : Outcome)
      → (stepped r total w).0 ≡ some o
      → run_rules x (r ∷ rs) ctx counting now total w
        ≡ (some o, (stepped r total w).1, (stepped r total w).2)
  unfolding run_rules
  run_rules-some r rs total w o e = rw (e, run_rules)

  run_rules_sound :
      (rules : List (CompiledRule x)) (total : ℕ) (w : World x) (out : Outcome) (total' : ℕ)
      (w' : World x)
      → run_rules x rules ctx counting now total w ≡ (some out, total', w')
      → Decides rules total w out total' w'
  unfolding run_rules
  run_rules_sound [] total w out total' w' h = absurd (cc)
  run_rules_sound (r ∷ rs) total w out total' w' h = elim (Option-cases (stepped r total w).0) [
    | inl e ↦
        let d =
          run_rules_sound rs (stepped r total w).1 (stepped r total w).2 out total' w'
            (sym (run_rules-none r rs total w e) ∙ h) in
        record {
          front = r ∷ d.front;
          rule = d.rule;
          back = d.back;
          score = d.score;
          state = d.state;
          listed = ap (λ l. r ∷ l) d.listed;
          undecided = run_rules-none r d.front total w e ∙ d.undecided;
          holds = d.holds;
          acts = d.acts;
        }
    | inr (o, e) ↦
        let same = sym (run_rules-some r rs total w o e) ∙ h in
        let (holds, acts) = step-some r total w out total' w' (cc) in
        record {
          front = [];
          rule = r;
          back = rs;
          score = total;
          state = w;
          listed = refl;
          undecided = refl;
          holds = holds;
          acts = acts;
        }
  ]

  run_rules-append :
      (front : List (CompiledRule x)) (back : List (CompiledRule x)) (total : ℕ) (w : World x)
      (score : ℕ) (state : World x)
      → run_rules x front ctx counting now total w ≡ (none, score, state)
      → run_rules x (front ++ back) ctx counting now total w
        ≡ run_rules x back ctx counting now score state
  unfolding run_rules
  run_rules-append [] back total w score state h = ground arith
  run_rules-append (r ∷ rs) back total w score state h = elim (Option-cases (stepped r total w).0) [
    | inl e ↦
        run_rules-none r (rs ++ back) total w e
        ∙ run_rules-append rs back (stepped r total w).1 (stepped r total w).2 score state
            (sym (run_rules-none r rs total w e) ∙ h)
    | inr (o, e) ↦ absurd (cc (run_rules-some r rs total w o e))
  ]

  decided :
      (r : CompiledRule x) (rs : List (CompiledRule x)) (total : ℕ) (w : World x) (out : Outcome)
      (total' : ℕ) (w' : World x)
      → all_request x r.conds ctx w.counters now ≡ true
      → act x r.id r.action ctx counting now total w ≡ (some out, total', w')
      → run_rules x (r ∷ rs) ctx counting now total w ≡ (some out, total', w')
  unfolding run_rules step
  decided r rs total w out total' w' h k = ground arith

  run_rules_complete :
      (rules : List (CompiledRule x)) (total : ℕ) (w : World x) (out : Outcome) (total' : ℕ)
      (w' : World x)
      → Decides rules total w out total' w'
      → run_rules x rules ctx counting now total w ≡ (some out, total', w')
  run_rules_complete rules total w out total' w' d = rw d.listed (
      run_rules-append d.front (d.rule ∷ d.back) total w d.score d.state d.undecided
      ∙ decided d.rule d.back d.score d.state out total' w' d.holds d.acts)

  -- If a rule holds in the state that the rules in front of it leave, they having come to no outcome,
  -- and its action gives an outcome, that is the outcome of the request phase: no later rule and no
  -- anomaly score changes it.
  pub evaluate_inner-Decides :
      (rs : RuleSet x) (w : World x) (out : Outcome) (total : ℕ) (w' : World x)
      → Decides rs.rules 0 w out total w'
      → evaluate_inner x rs ctx counting now w ≡ (some out, w')
  unfolding evaluate_inner
  evaluate_inner-Decides rs w out total w' d = rw (run_rules_complete rs.rules 0 w out total w' d)

  -- An outcome of the request phase is that of a rule that decides, or the block of the anomaly score,
  -- no rule having decided and the threshold, which is positive, having been reached.
  pub evaluate_inner_cases :
      (rs : RuleSet x) (w : World x) (out : Outcome) (w' : World x)
      → evaluate_inner x rs ctx counting now w ≡ (some out, w')
      → ((total : ℕ) × Decides rs.rules 0 w out total w')
        ⊎ ((total : ℕ) × (run_rules x rs.rules ctx counting now 0 w ≡ (none, total, w'))
            × (0 < rs.threshold)
            × (rs.threshold ≤ total)
            × (out ≡ blocked (lit "anomaly.score") rs.anomaly_status (anomaly_reason x rs total)))
  unfolding evaluate_inner anomaly
  evaluate_inner_cases rs w out w' h =
      let (o, total, w₁) = run_rules x rs.rules ctx counting now 0 w in
      elim (Option-cases o) [
        | inl e ↦ inr (total, ground arith, ground arith, ground arith, ground arith)
        | inr (o', e) ↦ inl (total, run_rules_sound rs.rules 0 w out total w' (ground arith))
      ]
