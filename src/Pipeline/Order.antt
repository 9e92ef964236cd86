-- ===== src/Pipeline/Order.antt =====
-- crates/budu-pipeline/src/lib.rs: the first of the configured stages.
use budu_waf.Prelude.{ℕ, ◌≡◌, true, List, ◌∷◌, lit}
use budu_waf.Common.{RequestCtx, WafDecision, stop, block}
use budu_waf.External.{Externals}
use budu_waf.Reputation
use budu_waf.Rules.Eval.{World}
use budu_waf.Pipeline.{
  OnError, StageFn, returned, Pipeline, run, evaluate_early, from_config, reputation_stage,
}

module _ {S C : Type 0} (on_error : OnError) (stage : StageFn S C) (stages : List (StageFn S C))
    (s s' : S) (c c' : C) where
  run-stop :
      (d : WafDecision)
      → stage s c ≡ returned s' c' (stop d)
      → run on_error (stage ∷ stages) s c ≡ (d, s', c')
  unfolding run
  run-stop d e = rw (e)

module _ (x : Externals) (p : Pipeline x) (now : ℕ) (w : World x) (ctx : RequestCtx x.Headers) where
  pub evaluate_early-blocklisted :
      Reputation.contains x p.blocks ctx.client.ip now ≡ true
      → evaluate_early (from_config x p now) w ctx
        ≡ (block (lit "reputation.blocklist") 403 (lit "source IP is blocklisted"), w, ctx)
  unfolding evaluate_early from_config reputation_stage Reputation.inspect
  evaluate_early-blocklisted h = run-stop _ _ _ w w ctx ctx _ (rw h)
