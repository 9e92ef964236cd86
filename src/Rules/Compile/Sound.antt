-- ===== src/Rules/Compile/Sound.antt =====
-- crates/budu-rules/src/ruleset.rs: what a rule set that compiles is like.
use budu_waf.Prelude.{
  ℕ, ◌+◌, ◌<◌, ◌≡◌, refl, Bool, true, false, List, [], ◌∷◌, Text, ℤ, arith, All, All-append, length,
  length-append, is_empty, not,
}
use mathlib.Core.Path.{subst, subst₂}
use budu_waf.External.{Externals}
use budu_waf.RateLimit.{new_limiter}
use budu_waf.Rules.Model.{Field, CompiledCond, Action, CompiledRule, RuleSet}
use budu_waf.Rules.Error.{ok, collect, >>=-eq-ok, ok-injective, collect-All}
use budu_waf.Rules.Compile.WellFormed.{CondFits, compile_cond-CondFits}
use budu_waf.Rules.Compile.{
  RuleDef, PhaseKind, ActionKind, ScoringConfig, Compiled, is_response_field, response_may_use,
  check_phase, check_phases, check_action, check_nonempty, compile_action, compile_rule, add_rule,
  response_may_do, compile_loop, apply_scoring, compile_with_tz,
}
use budu_waf.Rules.Condition.{compile_cond}

-- The action of a rule in a phase.
abbrev pub ActionFits : (ℕ → Bool) → Action → Type 0
ActionFits status_ok (Action.block status msg) = status_ok status ≡ true
ActionFits status_ok (Action.score points) = 0 < points
ActionFits status_ok (Action.rate_limit limiter) = 0 < limiter.rps
ActionFits status_ok _ = Unit

-- The fields that a phase may test, and the actions that it may take.
abbrev pub field_allowed : PhaseKind → Field → Bool
field_allowed PhaseKind.request field = not (is_response_field field)
field_allowed PhaseKind.response field = response_may_use field

abbrev pub action_allowed : PhaseKind → Action → Bool
action_allowed PhaseKind.request action = true
action_allowed PhaseKind.response (Action.block status msg) = true
action_allowed PhaseKind.response Action.log = true
action_allowed PhaseKind.response (Action.incr counter amount window) = true
action_allowed PhaseKind.response _ = false

module _ (x : Externals) where
  pub record RuleFits (phase : PhaseKind) (r : CompiledRule x) : Type 0 where
    pub nonempty : is_empty r.conds ≡ false
    pub conds : All (CondFits x) r.conds
    pub fields : All (λ c. field_allowed phase c.field ≡ true) r.conds
    pub action : ActionFits x.status_ok r.action
    pub allowed : action_allowed phase r.action ≡ true

  check_phase-allowed :
      (rule : Text) (phase : PhaseKind) (field : Field)
      → check_phase x rule phase field ≡ ok tt
      → field_allowed phase field ≡ true
  unfolding check_phase
  check_phase-allowed rule PhaseKind.request field h = ground arith
  check_phase-allowed rule PhaseKind.response field h = ground arith

  check_phases-All :
      (rule : Text) (phase : PhaseKind) (cs : List (CompiledCond x))
      → check_phases x rule phase cs ≡ ok tt
      → All (λ c. field_allowed phase c.field ≡ true) cs
  unfolding check_phases
  check_phases-All rule phase [] h = tt
  check_phases-All rule phase (c ∷ cs) h =
      let (u, e, k) = >>=-eq-ok (check_phase x rule phase c.field) _ h in
      (check_phase-allowed rule phase c.field e, check_phases-All rule phase cs k)

  check_nonempty-nonempty :
      (rule : Text) (cs : List (CompiledCond x))
      → check_nonempty x rule cs ≡ ok tt
      → is_empty cs ≡ false
  unfolding check_nonempty
  check_nonempty-nonempty rule [] h = cc
  check_nonempty-nonempty rule (c ∷ cs) h = refl

  compile_action-Fits :
      (def : RuleDef) (kind : ActionKind) (store : ℕ) (a : Action)
      → compile_action x def kind store ≡ ok a
      → ActionFits x.status_ok a
  unfolding compile_action new_limiter
  compile_action-Fits def kind store (Action.block status msg) h = ground arith
  compile_action-Fits def kind store (Action.score points) h = ground arith
  compile_action-Fits def kind store (Action.rate_limit limiter) h = ground arith
  compile_action-Fits def kind store _ h = tt

  compile_action-allowed :
      (def : RuleDef) (phase : PhaseKind) (kind : ActionKind) (store : ℕ) (a : Action)
      → check_action x def.id phase kind ≡ ok tt
      → compile_action x def kind store ≡ ok a
      → action_allowed phase a ≡ true
  unfolding compile_action check_action response_may_do
  compile_action-allowed def phase kind store a g h = ground arith

  compile_rule-RuleFits :
      (tz : ℤ) (store : ℕ) (def : RuleDef) (r : CompiledRule x)
      → compile_rule x tz store def ≡ ok r
      → RuleFits def.phase r
  unfolding compile_rule
  compile_rule-RuleFits tz store def r h =
      let (conds, e₁, h₁) = >>=-eq-ok (collect (compile_cond x def.id tz) def.when) _ h in
      let (u₂, e₂, h₂) = >>=-eq-ok (check_nonempty x def.id conds) _ h₁ in
      let (u₃, e₃, h₃) = >>=-eq-ok (check_phases x def.id def.phase conds) _ h₂ in
      let (u₄, e₄, h₄) = >>=-eq-ok (check_action x def.id def.phase def.action) _ h₃ in
      let (a, e₅, h₅) = >>=-eq-ok (compile_action x def def.action store) _ h₄ in
      subst (RuleFits def.phase) (ok-injective h₅) (record {
        nonempty = check_nonempty-nonempty def.id conds e₂;
        conds =
            collect-All (CondFits x) (compile_cond x def.id tz) (compile_cond-CondFits x def.id tz)
              def.when conds e₁;
        fields = check_phases-All def.id def.phase conds e₃;
        action = compile_action-Fits def def.action store a e₅;
        allowed = compile_action-allowed def def.phase def.action store a e₄ e₅;
      })

  -- What both lists of a compilation have, and the number of their rules.
  pub record CompiledFits (n : ℕ) (rules response_rules : List (CompiledRule x)) : Type 0 where
    pub request_rules : All (RuleFits PhaseKind.request) rules
    pub response : All (RuleFits PhaseKind.response) response_rules
    pub total : length rules + length response_rules ≡ n

  add_rule-Fits :
      (phase : PhaseKind) (n : ℕ) (r : CompiledRule x) (done : Compiled x)
      → RuleFits phase r
      → CompiledFits n done.rules done.response_rules
      → CompiledFits
          (n + 1)
          (add_rule x phase r done).rules
          (add_rule x phase r done).response_rules
  unfolding add_rule
  add_rule-Fits PhaseKind.request n r done f c = record {
    request_rules = All-append _ done.rules (r ∷ []) c.request_rules (f, tt);
    response = c.response;
    total = omega (arith, c.total, length-append done.rules (r ∷ []));
  }
  add_rule-Fits PhaseKind.response n r done f c = record {
    request_rules = c.request_rules;
    response = All-append _ done.response_rules (r ∷ []) c.response (f, tt);
    total = omega (arith, c.total, length-append done.response_rules (r ∷ []));
  }

  compile_loop-Fits :
      (tz : ℤ) (store n : ℕ) (defs : List RuleDef) (done end : Compiled x)
      → CompiledFits n done.rules done.response_rules
      → compile_loop x tz store defs done ≡ ok end
      → CompiledFits (n + length defs) end.rules end.response_rules
  unfolding compile_loop
  compile_loop-Fits tz store n [] done end c h =
      subst (λ (d : Compiled x). CompiledFits (n + 0) d.rules d.response_rules) (ok-injective h)
        (record {
          request_rules = c.request_rules;
          response = c.response;
          total = omega (arith, c.total);
        })
  compile_loop-Fits tz store n (def ∷ defs) done end c h =
      let (r, e, k) = >>=-eq-ok (compile_rule x tz store def) _ h in
      let d =
        compile_loop-Fits tz (store + 1) (n + 1) defs (add_rule x def.phase r done) end
          (add_rule-Fits def.phase n r done (compile_rule-RuleFits tz store def r e) c) k in
      record {
        request_rules = d.request_rules;
        response = d.response;
        total = omega (arith, d.total);
      }

  -- A rule set that compiles has a rule for each definition and no other. Each has a condition, tests
  -- only what its phase knows, with operators that fit their fields, and takes an action of its phase
  -- with a valid status, a positive score or a positive rate; the scoring is the configured one.
  pub compile_with_tz-Fits :
      (defs : List RuleDef) (scoring : ScoringConfig) (tz : ℤ) (store : ℕ) (rs : RuleSet x)
      → compile_with_tz x defs scoring tz store ≡ ok rs
      → CompiledFits (length defs) rs.rules rs.response_rules
        × (rs.threshold ≡ scoring.threshold)
        × (rs.anomaly_status ≡ scoring.status)
        × (x.status_ok rs.anomaly_status ≡ true)
  unfolding compile_with_tz apply_scoring
  compile_with_tz-Fits defs scoring tz store rs h =
      let start : Compiled x = record { rules = []; response_rules = [] } in
      let (end, e, k) = >>=-eq-ok (compile_loop x tz store defs start) _ h in
      let c =
        compile_loop-Fits tz store 0 defs start end
          (record { request_rules = tt; response = tt; total = omega arith }) e in
      let rules : end.rules ≡ rs.rules = ground arith in
      let response : end.response_rules ≡ rs.response_rules = ground arith in
      (
        subst₂ (CompiledFits (length defs)) rules response (record {
          request_rules = c.request_rules;
          response = c.response;
          total = omega (arith, c.total);
        }),
        ground arith,
        ground arith,
        ground arith,
      )
