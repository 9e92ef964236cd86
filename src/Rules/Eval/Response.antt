-- ===== src/Rules/Eval/Response.antt =====
-- crates/budu-rules/src/ruleset.rs: the response phase.
use budu_waf.Prelude.{
  ℕ, ◌≡◌, refl, sym, ap, ◌∙◌, false, Option, none, some, List, [], ◌∷◌, Text, arith, any,
  Option-cases, inl, inr,
}
use budu_waf.Common.{ResponseCtx, BodyState}
use budu_waf.External.{Externals}
use budu_waf.Rules.Model.{Field, CompiledCond, CompiledRule, RuleSet, Outcome, Action}
use budu_waf.Rules.Match.{all_response, matches_response, collect_response_candidates}
use budu_waf.Rules.Eval.{
  World, act_response, step_response, run_response, evaluate_response, needs_response_body,
  is_resp_body,
}

module _ (x : Externals) (rctx : ResponseCtx x.Headers) (b : BodyState) (now : ℕ) where
  abbrev swapped : ResponseCtx x.Headers
  swapped = record rctx { body = b }

  candidates_swapped :
      (f : Field) (c : x.Cache)
      → is_resp_body f ≡ false
      → collect_response_candidates x f swapped c now ≡ collect_response_candidates x f rctx c now
  unfolding collect_response_candidates is_resp_body
  candidates_swapped Field.status c h = refl
  candidates_swapped Field.resp_body c h = absurd (cc)
  candidates_swapped _ c h = refl

  matches_swapped :
      (k : CompiledCond x) (c : x.Cache)
      → is_resp_body k.field ≡ false
      → matches_response x k swapped c now ≡ matches_response x k rctx c now
  unfolding matches_response
  matches_swapped k c h = rw (candidates_swapped k.field c h)

  all_swapped :
      (ks : List (CompiledCond x)) (c : x.Cache)
      → any (λ k. is_resp_body k.field) ks ≡ false
      → all_response x ks swapped c now ≡ all_response x ks rctx c now
  unfolding all_response
  all_swapped [] c h = refl
  all_swapped (k ∷ ks) c h = ground (arith, matches_swapped k c, all_swapped ks c)

  act_swapped :
      (id : Text) (a : Action) (w : World x)
      → act_response x id a swapped now w ≡ act_response x id a rctx now w
  unfolding act_response
  act_swapped id Action.allow w = refl
  act_swapped id _ w = refl

  step_swapped :
      (r : CompiledRule x) (w : World x)
      → any (λ k. is_resp_body (k.field)) r.conds ≡ false
      → step_response x r swapped now w ≡ step_response x r rctx now w
  unfolding step_response
  step_swapped r w h = rw (all_swapped r.conds w.counters h, act_swapped r.id r.action w)

  run_response-none :
      (rc : ResponseCtx x.Headers) (r : CompiledRule x) (rs : List (CompiledRule x)) (w : World x)
      → (step_response x r rc now w).0 ≡ none
      → run_response x (r ∷ rs) rc now w ≡ run_response x rs rc now (step_response x r rc now w).1
  unfolding run_response
  run_response-none rc r rs w e = rw (e, run_response)

  run_response-some :
      (rc : ResponseCtx x.Headers) (r : CompiledRule x) (rs : List (CompiledRule x)) (w : World x)
      (o : Outcome)
      → (step_response x r rc now w).0 ≡ some o
      → run_response x (r ∷ rs) rc now w ≡ (some o, (step_response x r rc now w).1)
  unfolding run_response
  run_response-some rc r rs w o e = rw (e, run_response)

  run_swapped :
      (rs : List (CompiledRule x)) (w : World x)
      → any (λ r. any (λ k. is_resp_body k.field) r.conds) rs ≡ false
      → run_response x rs swapped now w ≡ run_response x rs rctx now w
  unfolding run_response
  run_swapped [] w h = refl
  run_swapped (r ∷ rs) w h =
      let same = step_swapped r w (ground arith) in
      elim (Option-cases (step_response x r rctx now w).0) [
        | inl e ↦
            run_response-none swapped r rs w (ap (λ p. p.0) same ∙ e)
            ∙ (ap (λ p. run_response x rs swapped now p.1) same
                ∙ (run_swapped rs (step_response x r rctx now w).1 (ground arith)
                    ∙ sym (run_response-none rctx r rs w e)))
        | inr (o, e) ↦
            run_response-some swapped r rs w o (ap (λ p. p.0) same ∙ e)
            ∙ (ap (λ (p : Option Outcome × World x). (some o, p.1)) same
                ∙ sym (run_response-some rctx r rs w o e))
      ]

  -- Where no response rule looks at the body, the response phase comes to the same outcome and the
  -- same state whatever the body is: it need not be buffered.
  pub needs_response_body_sound :
      (rs : RuleSet x) (w : World x)
      → needs_response_body x rs ≡ false
      → evaluate_response x rs (record rctx { body = b }) now w ≡ evaluate_response x rs rctx now w
  unfolding evaluate_response needs_response_body
  needs_response_body_sound rs w h = run_swapped rs.response_rules w h
