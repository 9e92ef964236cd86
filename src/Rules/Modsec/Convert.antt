-- ===== src/Rules/Modsec/Convert.antt =====
-- crates/budu-rules/src/modsec.rs: from the parsed rules to the ones that are emitted.
use budu_waf.Prelude.{
  ℕ, ◌+◌, ◌%◌, Bool, true, false, Option, none, some, List, [], ◌∷◌, ◌++◌, Text, lit, eq_text, leb,
  length, suc, trim, parse_unsigned, u16_max, unwrap_or, if◌then◌else◌, ◌>>=◌,
}
use budu_waf.Rules.Modsec.Tokens.{RawVar, tokenize, parse_vars, parse_operator, split_actions}
use budu_waf.Rules.Modsec.Mapping.{
  malformed, no_targets, several_variables, response_phase, Converted, skipped, done, one_of,
  map_var, map_operator, operator_warnings, keeps, clears, unsupported, map_transform,
  anomaly_score,
}

pub record EmittedCond : Type 0 where
  pub field : Text
  pub name : Option Text
  pub op : Text
  pub value : Option Text
  pub negate : Bool
  pub transform : List Text

pub record EmittedRule : Type 0 where
  pub id : Text
  pub action : Text
  pub status : Option ℕ
  pub msg : Text
  pub score : ℕ
  pub when : List EmittedCond

pub record ParsedRule : Type 0 where
  pub vars : List RawVar
  pub op_name : Text
  pub op_arg : Text
  pub negate : Bool
  pub transforms : List Text
  pub id : Option Text
  pub phase : ℕ
  pub disrupt : Bool
  pub allow : Bool
  pub pass : Bool
  pub status : Option ℕ
  pub msg : Text
  pub score : Option ℕ
  pub chain : Bool

abbrev pub new_rule : List RawVar → Text × Text × Bool → ParsedRule
new_rule vars op = record {
  vars = vars;
  op_name = op.0;
  op_arg = op.1;
  negate = op.2;
  transforms = [];
  id = none;
  phase = 2;
  disrupt = false;
  allow = false;
  pass = false;
  status = none;
  msg = [];
  score = none;
  chain = false;
}

unfoldable pub phase_of : Option Text → ℕ
phase_of none = 2
phase_of (some n) =
    if eq_text n (lit "request")
    then 2
    else if eq_text n (lit "response")
    then 4
    else unwrap_or (parse_unsigned 255 (trim n)) 2

-- an action `t`
unfoldable pub add_transform : Option Text → ParsedRule → ParsedRule
add_transform none rule = rule
add_transform (some t) rule = elim (map_transform t) [
  | keeps name ↦ record rule { transforms = rule.transforms ++ (name ∷ []) }
  | clears ↦ record rule { transforms = [] }
  | unsupported ↦ rule
]

-- The `match` on an action's key, in two parts.
unfoldable pub late_action : Text → Option Text → ParsedRule → ParsedRule
unfolding add_transform
late_action key val rule =
    if eq_text key (lit "status")
    then elim (val >>= λ v. parse_unsigned u16_max (trim v)) [
      | some s ↦ record rule { status = some s }
      | none ↦ rule
    ]
    else if eq_text key (lit "msg")
    then record rule { msg = unwrap_or val [] }
    else if eq_text key (lit "t")
    then add_transform val rule
    else if eq_text key (lit "setvar")
    then elim (anomaly_score (unwrap_or val [])) [
      | some points ↦ record rule { score = some points }
      | none ↦ rule
    ]
    else if eq_text key (lit "chain")
    then record rule { chain = true }
    else rule

unfoldable pub apply_action : Text × Option Text → ParsedRule → ParsedRule
unfolding late_action phase_of
apply_action (key, val) rule =
    if eq_text key (lit "id")
    then record rule { id = val >>= λ v. some (trim v) }
    else if eq_text key (lit "phase")
    then record rule { phase = phase_of val }
    else if one_of key (lit "deny" ∷ lit "block" ∷ lit "drop" ∷ [])
    then record rule { disrupt = true }
    else if eq_text key (lit "allow")
    then record rule { allow = true }
    else if eq_text key (lit "pass")
    then record rule { pass = true }
    else late_action key val rule

unfoldable pub apply_actions : List (Text × Option Text) → ParsedRule → ParsedRule
unfolding apply_action
apply_actions [] rule = rule
apply_actions (a ∷ as') rule = apply_actions as' (apply_action a rule)

unfoldable pub secrule_of : List Text → Converted ParsedRule
secrule_of [] = skipped malformed
secrule_of (vars ∷ []) = skipped malformed
secrule_of (vars ∷ op ∷ []) = done (new_rule (parse_vars vars) (parse_operator op))
secrule_of (vars ∷ op ∷ actions ∷ more) =
    done (apply_actions (split_actions actions) (new_rule (parse_vars vars) (parse_operator op)))

unfoldable pub parse_secrule : Text → Converted ParsedRule
unfolding secrule_of
parse_secrule rest = secrule_of (tokenize rest)

-- the conditions of the usable variables
unfoldable pub conditions_of : ParsedRule → Text × Option Text → List RawVar → List EmittedCond
conditions_of m op [] = []
conditions_of m op (v ∷ vs) =
    let rest = conditions_of m op vs in
    if v.exclude then rest else elim (map_var v) [
      | none ↦ rest
      | some (field, name) ↦
          record {
            field = field;
            name = name;
            op = op.0;
            value = op.1;
            negate = m.negate;
            transform = m.transforms;
          }
          ∷ rest
    ]

unfoldable pub some_targets : List EmittedCond → Converted (List EmittedCond)
some_targets [] = skipped no_targets
some_targets (c ∷ cs) = done (c ∷ cs)

unfoldable pub map_member_conditions : ParsedRule → Converted (List EmittedCond)
unfolding some_targets
map_member_conditions m = elim (map_operator m.op_name m.op_arg) [
  | skipped why ↦ skipped why
  | done op ↦ some_targets (conditions_of m op m.vars)
]

-- one round of the loop over the members: the first error ends it, and the warnings so far stay
abbrev pub push_member :
    List Text
    → Converted (List EmittedCond)
    → List Text × Converted (List (List EmittedCond))
    → List Text × Converted (List (List EmittedCond))
push_member warnings (skipped why) rest = (warnings, skipped why)
push_member warnings (done conds) (more, skipped why) = (warnings ++ more, skipped why)
push_member warnings (done conds) (more, done css) = (warnings ++ more, done (conds ∷ css))

unfoldable pub member_conditions : List ParsedRule → List Text × Converted (List (List EmittedCond))
unfolding map_member_conditions
member_conditions [] = ([], done [])
member_conditions (m ∷ ms) =
    push_member (operator_warnings m.op_name m.op_arg) (map_member_conditions m)
      (member_conditions ms)

-- the action, the status and the score of a rule, from its starter
unfoldable pub action_for : ParsedRule → Text × Option ℕ × ℕ
action_for starter = if starter.allow then (lit "allow", none, 0) else elim starter.score [
  | some points ↦ (lit "score", none, points)
  | none ↦
      if starter.disrupt
      then (lit "block", some (unwrap_or starter.status 403), 0)
      else (lit "log", none, 0)
]

unfoldable pub id_base : ParsedRule → Text
id_base starter = elim starter.id [ some n ↦ lit "crs-" ++ n | none ↦ lit "crs-noid" ]

-- `(b'a' + idx as u8) as char`, wrapping as it does in a release build
abbrev suffix : ℕ → Text
suffix idx = b'-' ∷ (97 + idx % 256) % 256 ∷ []

abbrev pub emit : ParsedRule → Text → List EmittedCond → EmittedRule
emit starter id when =
    let (action, status, score) = action_for starter in
    record {
      id = id;
      action = action;
      status = status;
      msg = starter.msg;
      score = score;
      when = when;
    }

-- one rule for each variable
unfoldable pub emit_each : ParsedRule → Bool → ℕ → List EmittedCond → List EmittedRule
emit_each starter multi idx [] = []
emit_each starter multi idx (c ∷ cs) =
    emit starter (if multi then id_base starter ++ suffix idx else id_base starter) (c ∷ [])
    ∷ emit_each starter multi (suc idx) cs

-- the one condition of each member of a chain
unfoldable pub chain_conditions : List (List EmittedCond) → Converted (List EmittedCond)
chain_conditions [] = done []
chain_conditions ([] ∷ css) = skipped several_variables
chain_conditions ((c ∷ []) ∷ css) = elim (chain_conditions css) [
  | skipped why ↦ skipped why
  | done cs ↦ done (c ∷ cs)
]
chain_conditions ((c ∷ d ∷ cs) ∷ css) = skipped several_variables

unfoldable pub rules_of : ParsedRule → List (List EmittedCond) → Converted (List EmittedRule)
unfolding emit_each chain_conditions
rules_of starter [] = done (emit starter (id_base starter) [] ∷ [])
rules_of starter (conds ∷ []) = done (emit_each starter (leb 2 (length conds)) 0 conds)
rules_of starter (conds ∷ more ∷ css) = elim (chain_conditions (conds ∷ more ∷ css)) [
  | skipped why ↦ skipped why
  | done when ↦ done (emit starter (id_base starter) when ∷ [])
]

-- `build_rules` for a starter and the members that follow it
unfoldable pub build_rules : ParsedRule → List ParsedRule → List Text × Converted (List EmittedRule)
unfolding rules_of member_conditions
build_rules starter members =
    if leb 3 starter.phase
    then ([], skipped (response_phase starter.phase))
    else let (warnings, conds) = member_conditions (starter ∷ members) in
      (warnings, elim conds [ skipped why ↦ skipped why | done css ↦ rules_of starter css ])
