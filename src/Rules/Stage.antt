-- ===== src/Rules/Stage.antt =====
-- crates/budu-rules/src/stage.rs: the rule engine as a stage of the pipeline.
use budu_waf.Prelude.{ℕ, true, Option, none, some}
use budu_waf.Common.{
  RequestCtx, ResponseCtx, WafDecision, ControlFlow, go_on, stop, allow, block, rate_limited,
}
use budu_waf.External.{Externals}
use budu_waf.Rules.Model.{RuleSet, Outcome, blocked, allowed, throttled}
use budu_waf.Rules.Eval.{World, evaluate_inner, evaluate_response}

-- the arms of the two matches
unfoldable pub decide : Option Outcome → ControlFlow
decide (some (blocked id status reason)) = stop (block id status reason)
decide (some (allowed id)) = stop allow
decide (some (throttled id secs)) = stop (rate_limited secs)
decide none = go_on

unfoldable pub decide_response : Option Outcome → WafDecision
decide_response (some (blocked id status reason)) = block id status reason
decide_response _ = allow

module _ (x : Externals) where
  -- `RulesStage::inspect`, through `evaluate_counting`
  unfoldable pub inspect : RuleSet x → RequestCtx x.Headers → ℕ → World x → World x × ControlFlow
  inspect rs ctx now w = let (o, w') = evaluate_inner x rs ctx true now w in (w', decide o)

  unfoldable pub inspect_response :
      RuleSet x → ResponseCtx x.Headers → ℕ → World x → World x × WafDecision
  inspect_response rs rctx now w =
      let (o, w') = evaluate_response x rs rctx now w in (w', decide_response o)
