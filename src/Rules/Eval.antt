-- ===== src/Rules/Eval.antt =====
-- crates/budu-rules/src/ruleset.rs: evaluating rules against a request or a response. The state that
-- the engine shares (counters, buckets, the tally of `log` matches) is passed along.
pub mod Spec
pub mod Scoring
pub mod Response
use budu_waf.Prelude.{
  ℕ, ◌+◌, ◌%◌, ◌^◌, Bool, true, false, ◌&&◌, Option, none, some, List, [], ◌∷◌, ◌++◌, Text, lit,
  any, u32_max, show_ℕ, leb, ltb, length, saturating_add, if◌then◌else◌,
}
use budu_waf.Common.{RequestCtx, ResponseCtx}
use budu_waf.External.{Externals}
use budu_waf.RateLimit
use budu_waf.RateLimit.{Stores, check}
use budu_waf.Rules.Model.{
  Field, Action, CompiledRule, RuleSet, Outcome, blocked, allowed, throttled,
}
use budu_waf.Rules.Match.{all_request, all_response}

unfoldable pub is_resp_body : Field → Bool
is_resp_body Field.resp_body = true
is_resp_body _ = false

-- The shared state of the engine.
pub record World (x : Externals) : Type 0 where
  pub counters : x.Cache
  pub buckets : Stores x
  pub log_hits : ℕ

module _ (x : Externals) where
  -- What a matching rule of the request phase does: an outcome, the score so far and the state.
  unfoldable pub act :
      Text → Action → RequestCtx x.Headers → Bool → ℕ → ℕ → World x → Option Outcome × ℕ × World x
  act id (Action.block status msg) ctx counting now total w =
      (some (blocked id status msg), total, w)
  act id Action.allow ctx counting now total w = (some (allowed id), total, w)
  act id Action.log ctx counting now total w =
      (none, total, if counting then record w { log_hits = (w.log_hits + 1) % 2 ^ 64 } else w)
  act id (Action.rate_limit limiter) ctx counting now total w =
      let (buckets, refused) = check x limiter w.buckets ctx.client.ip now in
      (
        elim refused [ none ↦ none | some secs ↦ some (throttled id secs) ],
        total,
        record w { buckets = buckets },
      )
  act id (Action.score points) ctx counting now total w =
      (none, saturating_add u32_max total points, w)
  act id (Action.incr counter amount window_secs) ctx counting now total w = (
    none,
    total,
    record w {
      counters = (RateLimit.incr x w.counters counter ctx.client.ip amount window_secs now).1;
    },
  )

  unfoldable pub step :
      CompiledRule x → RequestCtx x.Headers → Bool → ℕ → ℕ → World x → Option Outcome × ℕ × World x
  step r ctx counting now total w =
      if all_request x r.conds ctx w.counters now
      then act r.id r.action ctx counting now total w
      else (none, total, w)

  -- the `for` loop: it ends at the first outcome
  unfoldable pub run_rules :
      List (CompiledRule x)
      → RequestCtx x.Headers
      → Bool
      → ℕ
      → ℕ
      → World x
      → Option Outcome × ℕ × World x
  run_rules [] ctx counting now total w = (none, total, w)
  run_rules (r ∷ rs) ctx counting now total w =
      let (o, total', w') = step r ctx counting now total w in
      elim o [ some out ↦ (some out, total', w') | none ↦ run_rules rs ctx counting now total' w' ]

  -- the reason of an anomaly block: the message, the score and the threshold
  unfoldable pub anomaly_reason : RuleSet x → ℕ → Text
  anomaly_reason rs total =
      rs.anomaly_msg
      ++ (lit " (score " ++ (show_ℕ total ++ (lit " >= " ++ (show_ℕ rs.threshold ++ lit ")"))))

  unfoldable pub anomaly : RuleSet x → ℕ → Option Outcome
  anomaly rs total =
      if ltb 0 rs.threshold && leb rs.threshold total
      then some (blocked (lit "anomaly.score") rs.anomaly_status (anomaly_reason rs total))
      else none

  unfoldable pub evaluate_inner :
      RuleSet x → RequestCtx x.Headers → Bool → ℕ → World x → Option Outcome × World x
  evaluate_inner rs ctx counting now w =
      let (o, total, w') = run_rules rs.rules ctx counting now 0 w in
      (elim o [ some out ↦ some out | none ↦ anomaly rs total ], w')

  -- What a matching rule of the response phase does.
  unfoldable pub act_response :
      Text → Action → ResponseCtx x.Headers → ℕ → World x → Option Outcome × World x
  act_response id (Action.block status msg) rctx now w = (some (blocked id status msg), w)
  act_response id Action.log rctx now w = (none, record w { log_hits = (w.log_hits + 1) % 2 ^ 64 })
  act_response id (Action.incr counter amount window_secs) rctx now w = (
    none,
    record w {
      counters = (RateLimit.incr x w.counters counter rctx.client.ip amount window_secs now).1;
    },
  )
  act_response id Action.allow rctx now w = (none, w)
  act_response id (Action.rate_limit limiter) rctx now w = (none, w)
  act_response id (Action.score points) rctx now w = (none, w)

  unfoldable pub step_response :
      CompiledRule x → ResponseCtx x.Headers → ℕ → World x → Option Outcome × World x
  step_response r rctx now w =
      if all_response x r.conds rctx w.counters now
      then act_response r.id r.action rctx now w
      else (none, w)

  unfoldable pub run_response :
      List (CompiledRule x) → ResponseCtx x.Headers → ℕ → World x → Option Outcome × World x
  run_response [] rctx now w = (none, w)
  run_response (r ∷ rs) rctx now w =
      let (o, w') = step_response r rctx now w in
      elim o [ some out ↦ (some out, w') | none ↦ run_response rs rctx now w' ]

  unfoldable pub evaluate_response :
      RuleSet x → ResponseCtx x.Headers → ℕ → World x → Option Outcome × World x
  evaluate_response rs rctx now w = run_response rs.response_rules rctx now w

  unfoldable pub needs_response_body : RuleSet x → Bool
  needs_response_body rs = any (λ r. any (λ c. is_resp_body (c.field)) r.conds) rs.response_rules

  unfoldable pub len : RuleSet x → ℕ
  len rs = length rs.rules + length rs.response_rules
