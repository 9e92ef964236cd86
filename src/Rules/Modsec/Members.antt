-- ===== src/Rules/Modsec/Members.antt =====
-- crates/budu-rules/src/modsec.rs: the conditions of a rule's members, and the rules that they give.
use budu_waf.Prelude.{
  ℕ, Bool, Option, none, some, List, [], ◌∷◌, Text, lit, All, unwrap_or, if_elim, suc,
  if◌then◌else◌,
}
use budu_waf.Rules.Modsec.Tokens.{RawVar}
use budu_waf.Rules.Modsec.Mapping.{
  operator_warnings, Converted, skipped, done, map_var, map_operator,
}
use budu_waf.Rules.Modsec.Convert.{
  EmittedCond, EmittedRule, ParsedRule, conditions_of, some_targets, push_member,
  map_member_conditions, member_conditions, action_for, emit, emit_each, chain_conditions,
}
use budu_waf.Rules.Modsec.Known.{
  Operator, op_of, map_var-KnownVar, KnownOp, refused_op, operator, map_operator-KnownOp,
}
use budu_waf.Rules.Modsec.Emitted.{
  KnownCond, KnownAction, allows, scores, blocks, logs, SomeConds, some_conds, KnownRule,
  KnownTransforms, IfDone, not_done, is_done, Conds, conds, var-Conds,
}

conditions_of-KnownCond :
    (m : ParsedRule) (o : Operator) (value : Option Text) (vs : List RawVar)
    → KnownTransforms m
    → Conds (conditions_of m (op_of o, value) vs)
unfolding conditions_of
conditions_of-KnownCond m o value [] h = conds [] tt
conditions_of-KnownCond m o value (v ∷ vs) h =
    let rest = conditions_of-KnownCond m o value vs h in
    if_elim Conds _ rest (var-Conds m o value (map_var v) h (map_var-KnownVar v) _ rest)

-- the conditions of a member: at least one
some_targets-SomeConds : (cs : List EmittedCond) → Conds cs → IfDone SomeConds (some_targets cs)
unfolding some_targets
some_targets-SomeConds [] _ = not_done
some_targets-SomeConds (c ∷ cs) (conds _ (k, ks)) = is_done (some_conds c cs k ks)

targets_of-SomeConds :
    (m : ParsedRule) (r : Converted (Text × Option Text))
    → KnownTransforms m
    → KnownOp r
    → IfDone SomeConds
        (elim r [ skipped why ↦ skipped why | done op ↦ some_targets (conditions_of m op m.vars) ])
targets_of-SomeConds m r h refused_op = not_done
targets_of-SomeConds m r h (operator o value) =
    some_targets-SomeConds (conditions_of m (op_of o, value) m.vars)
      (conditions_of-KnownCond m o value m.vars h)

map_member_conditions-SomeConds :
    (m : ParsedRule) → KnownTransforms m → IfDone SomeConds (map_member_conditions m)
unfolding map_member_conditions
map_member_conditions-SomeConds m h =
    targets_of-SomeConds m (map_operator m.op_name m.op_arg) h
      (map_operator-KnownOp m.op_name m.op_arg)

-- the conditions of all members
pub data Groups : List (List EmittedCond) → Type 0 where
  groups : (css : List (List EmittedCond)) → All SomeConds css → Groups css

join-Groups :
    (warnings : List Text) (r : Converted (List EmittedCond))
    (rest : List Text × Converted (List (List EmittedCond)))
    → IfDone SomeConds r
    → IfDone Groups rest.1
    → IfDone Groups (push_member warnings r rest).1
join-Groups warnings r rest not_done k = not_done
join-Groups warnings r (ws, _) (is_done h) not_done = not_done
join-Groups warnings r (ws, _) (is_done h) (is_done (groups css hs)) = is_done (groups _ (h, hs))

member_conditions-Groups :
    (ms : List ParsedRule) → All KnownTransforms ms → IfDone Groups (member_conditions ms).1
unfolding member_conditions
member_conditions-Groups [] h = is_done (groups [] tt)
member_conditions-Groups (m ∷ ms) (h, hs) =
    join-Groups (operator_warnings m.op_name m.op_arg) (map_member_conditions m)
      (member_conditions ms) (map_member_conditions-SomeConds m h) (member_conditions-Groups ms hs)

-- a member more: there is a first group
pub data SomeGroups : List (List EmittedCond) → Type 0 where
  some_groups :
      (cs : List EmittedCond) (css : List (List EmittedCond))
      → SomeConds cs
      → All SomeConds css
      → SomeGroups (cs ∷ css)

join-SomeGroups :
    (warnings : List Text) (r : Converted (List EmittedCond))
    (rest : List Text × Converted (List (List EmittedCond)))
    → IfDone SomeConds r
    → IfDone Groups rest.1
    → IfDone SomeGroups (push_member warnings r rest).1
join-SomeGroups warnings r rest not_done k = not_done
join-SomeGroups warnings r (ws, _) (is_done h) not_done = not_done
join-SomeGroups warnings r (ws, _) (is_done h) (is_done (groups css hs)) =
    is_done (some_groups _ css h hs)

pub member_conditions-SomeGroups :
    (starter : ParsedRule) (members : List ParsedRule)
    → All KnownTransforms (starter ∷ members)
    → IfDone SomeGroups (member_conditions (starter ∷ members)).1
unfolding member_conditions
member_conditions-SomeGroups m ms (h, hs) =
    join-SomeGroups (operator_warnings m.op_name m.op_arg) (map_member_conditions m)
      (member_conditions ms) (map_member_conditions-SomeConds m h) (member_conditions-Groups ms hs)

action_for-KnownAction : (starter : ParsedRule) → KnownAction (action_for starter)
unfolding action_for
action_for-KnownAction starter = if_elim KnownAction _ allows (scored starter.score)
  where
    scored :
        (o : Option ℕ)
        → KnownAction (elim o [
          | some points ↦ (lit "score", none, points)
          | none ↦
              if starter.disrupt
              then (lit "block", some (unwrap_or starter.status 403), 0)
              else (lit "log", none, 0)
        ])
    scored (some points) = scores points
    scored none = if_elim KnownAction _ (blocks _) logs

pub emit-KnownRule :
    (starter : ParsedRule) (id : Text) (when : List EmittedCond)
    → SomeConds when
    → KnownRule (emit starter id when)
emit-KnownRule starter id when h = record { action = action_for-KnownAction starter; when = h }

-- rules that are all known
pub data Rules : List EmittedRule → Type 0 where
  rules : (rs : List EmittedRule) → All KnownRule rs → Rules rs

pub emit_each-KnownRule :
    (starter : ParsedRule) (multi : Bool) (cs : List EmittedCond) (idx : ℕ)
    → All KnownCond cs
    → All KnownRule (emit_each starter multi idx cs)
unfolding emit_each
emit_each-KnownRule starter multi [] idx h = tt
emit_each-KnownRule starter multi (c ∷ cs) idx (h, hs) = (
  emit-KnownRule starter _ _ (some_conds c [] h tt),
  emit_each-KnownRule starter multi cs (suc idx) hs,
)

chain_conditions-Conds :
    (css : List (List EmittedCond)) → All SomeConds css → IfDone Conds (chain_conditions css)
unfolding chain_conditions
chain_conditions-Conds [] h = is_done (conds [] tt)
chain_conditions-Conds ([] ∷ css) h = not_done
chain_conditions-Conds ((c ∷ d ∷ cs) ∷ css) h = not_done
chain_conditions-Conds ((c ∷ []) ∷ css) (some_conds _ _ k _, hs) =
    first (chain_conditions css) (chain_conditions-Conds css hs) k
  where
    first :
        (r : Converted (List EmittedCond))
        → IfDone Conds r
        → KnownCond c
        → IfDone Conds (elim r [ skipped why ↦ skipped why | done cs ↦ done (c ∷ cs) ])
    first r not_done k = not_done
    first r (is_done (conds cs ks)) k = is_done (conds _ (k, ks))

-- a chain has a first condition
pub chain_conditions-SomeConds :
    (cs : List EmittedCond) (css : List (List EmittedCond))
    → All SomeConds (cs ∷ css)
    → IfDone SomeConds (chain_conditions (cs ∷ css))
unfolding chain_conditions
chain_conditions-SomeConds [] css h = not_done
chain_conditions-SomeConds (c ∷ d ∷ cs) css h = not_done
chain_conditions-SomeConds (c ∷ []) css (some_conds _ _ k _, hs) =
    first (chain_conditions css) (chain_conditions-Conds css hs) k
  where
    first :
        (r : Converted (List EmittedCond))
        → IfDone Conds r
        → KnownCond c
        → IfDone SomeConds (elim r [ skipped why ↦ skipped why | done cs ↦ done (c ∷ cs) ])
    first r not_done k = not_done
    first r (is_done (conds cs ks)) k = is_done (some_conds c cs k ks)
