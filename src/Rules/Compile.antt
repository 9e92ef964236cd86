-- ===== src/Rules/Compile.antt =====
-- crates/budu-rules/src/ruleset.rs: checking and compiling rule definitions. What serde reads from the
-- file is the record `RuleDef`, its defaults filled in.
pub mod WellFormed
pub mod Sound
use budu_waf.Prelude.{
  ℕ, ◌+◌, Bool, true, false, List, [], ◌∷◌, ◌++◌, Text, lit, trim, is_empty, ℤ, ◌==◌, if◌then◌else◌,
}
use budu_waf.External.{Externals}
use budu_waf.RateLimit.{new_limiter}
use budu_waf.Rules.Model.{Field, CompiledCond, Action, CompiledRule, RuleSet}
use budu_waf.Rules.Error.{Reason, invalid, Result, ok, err, ◌>>=◌, collect}
use budu_waf.Rules.Condition.{compile_cond, CondDef}

pub data PhaseKind : Type 0 where
  request response : PhaseKind

pub data ActionKind : Type 0 where
  block allow log rate_limit score incr : ActionKind

pub record RuleDef : Type 0 where
  pub id : Text
  pub phase : PhaseKind
  pub action : ActionKind
  pub status : ℕ
  pub msg : Text
  pub rps : ℕ
  pub burst : ℕ
  pub ttl_secs : ℕ
  pub score : ℕ
  pub counter : Text
  pub incr : ℕ
  pub when : List CondDef

pub record ScoringConfig : Type 0 where
  pub threshold : ℕ
  pub status : ℕ
  pub msg : Text

-- the fields of the response, and those that a response rule may use
unfoldable pub is_response_field : Field → Bool
is_response_field Field.status = true
is_response_field (Field.resp_header name) = true
is_response_field Field.resp_body = true
is_response_field _ = false

unfoldable pub response_may_use : Field → Bool
response_may_use Field.status = true
response_may_use (Field.resp_header name) = true
response_may_use Field.resp_body = true
response_may_use Field.ip = true
response_may_use Field.path = true
response_may_use (Field.counter name) = true
response_may_use _ = false

unfoldable pub response_may_do : ActionKind → Bool
response_may_do ActionKind.block = true
response_may_do ActionKind.log = true
response_may_do ActionKind.incr = true
response_may_do _ = false

module _ (x : Externals) where
  -- one round of the loop on phase and field
  unfoldable pub check_phase : Text → PhaseKind → Field → Result (Unit {0})
  check_phase rule PhaseKind.request field =
      if is_response_field field then err (invalid rule Reason.response_field_in_request) else ok tt
  check_phase rule PhaseKind.response field =
      if response_may_use field then ok tt else err (invalid rule Reason.request_field_in_response)

  unfoldable pub check_phases : Text → PhaseKind → List (CompiledCond x) → Result (Unit {0})
  check_phases rule phase [] = ok tt
  check_phases rule phase (c ∷ cs) =
      check_phase rule phase c.field >>= λ _. check_phases rule phase cs

  unfoldable pub check_action : Text → PhaseKind → ActionKind → Result (Unit {0})
  check_action rule PhaseKind.request action = ok tt
  check_action rule PhaseKind.response action =
      if response_may_do action then ok tt else err (invalid rule Reason.response_action)

  -- The action of a rule; `store` is the handle that a new limiter takes.
  unfoldable pub compile_action : RuleDef → ActionKind → ℕ → Result Action
  compile_action def ActionKind.block store =
      if x.status_ok def.status
      then ok (Action.block def.status (if is_empty def.msg then def.id else def.msg))
      else err (invalid def.id Reason.bad_status)
  compile_action def ActionKind.allow store = ok Action.allow
  compile_action def ActionKind.log store = ok Action.log
  compile_action def ActionKind.rate_limit store =
      if def.rps == 0
      then err (invalid def.id Reason.no_rps)
      else ok (Action.rate_limit (new_limiter def.rps def.burst def.ttl_secs store))
  compile_action def ActionKind.score store =
      if def.score == 0 then err (invalid def.id Reason.no_score) else ok (Action.score def.score)
  compile_action def ActionKind.incr store =
      if is_empty (trim def.counter)
      then err (invalid def.id Reason.no_counter)
      else ok (Action.incr def.counter def.incr def.ttl_secs)

  unfoldable pub check_nonempty : Text → List (CompiledCond x) → Result (Unit {0})
  check_nonempty rule [] = err (invalid rule Reason.no_condition)
  check_nonempty rule (c ∷ cs) = ok tt

  unfoldable pub compile_rule : ℤ → ℕ → RuleDef → Result (CompiledRule x)
  compile_rule default_tz store def =
      collect (compile_cond x def.id default_tz) def.when >>= λ conds.
      check_nonempty def.id conds >>= λ _. check_phases def.id def.phase conds >>= λ _.
      check_action def.id def.phase def.action >>= λ _.
      compile_action def def.action store >>= λ action.
      ok (record { id = def.id; action = action; conds = conds })

  -- The rules of both phases. A rule's limiter takes the next handle from `store` on.
  pub record Compiled : Type 0 where
    pub rules : List (CompiledRule x)
    pub response_rules : List (CompiledRule x)

  unfoldable pub add_rule : PhaseKind → CompiledRule x → Compiled → Compiled
  add_rule PhaseKind.request r done = record done { rules = done.rules ++ (r ∷ []) }
  add_rule PhaseKind.response r done = record done {
    response_rules = done.response_rules ++ (r ∷ []);
  }

  unfoldable pub compile_loop : ℤ → ℕ → List RuleDef → Compiled → Result Compiled
  compile_loop default_tz store [] done = ok done
  compile_loop default_tz store (def ∷ defs) done = compile_rule default_tz store def >>= λ r.
      compile_loop default_tz (store + 1) defs (add_rule def.phase r done)

  unfoldable pub apply_scoring : ScoringConfig → RuleSet x → Result (RuleSet x)
  apply_scoring scoring rs =
      if x.status_ok scoring.status
      then ok (record rs {
        threshold = scoring.threshold;
        anomaly_status = scoring.status;
        anomaly_msg = scoring.msg;
      })
      else err (invalid (lit "[scoring]") Reason.bad_status)

  unfoldable pub compile_with_tz : List RuleDef → ScoringConfig → ℤ → ℕ → Result (RuleSet x)
  compile_with_tz defs scoring default_tz store =
      compile_loop default_tz store defs (record { rules = []; response_rules = [] }) >>= λ done.
      apply_scoring scoring (record {
        rules = done.rules;
        response_rules = done.response_rules;
        threshold = 0;
        anomaly_status = 403;
        anomaly_msg = lit "anomaly score threshold exceeded";
      })
