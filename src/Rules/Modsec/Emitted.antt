-- ===== src/Rules/Modsec/Emitted.antt =====
-- crates/budu-rules/src/modsec.rs: what every emitted rule looks like.
use budu_waf.Prelude.{
  ℕ, ◌≡◌, Bool, true, false, Option, none, some, List, [], ◌∷◌, ◌++◌, Text, lit, All, All-append,
  eq_text, not, ◌&&◌, sym, arith, if◌then◌else◌,
}
use mathlib.Core.Path.{subst}
use budu_waf.Rules.Modsec.Tokens.{split_actions, tokenize}
use budu_waf.Rules.Modsec.Mapping.{
  one_of, Skip, Converted, skipped, done, Transform, keeps, clears, unsupported, map_transform,
}
use budu_waf.Rules.Modsec.Convert.{
  EmittedCond, EmittedRule, ParsedRule, add_transform, late_action, apply_action, apply_actions,
  secrule_of, parse_secrule,
}
use budu_waf.Rules.Modsec.Known.{
  Target, field_of, Operator, op_of, KnownVar, unsupported_var, target, IsTransform, KnownTransform,
  kept, cleared, ignored, map_transform-KnownTransform,
}

-- a condition whose field, operator and transforms are of the rule format
pub data KnownCond : EmittedCond → Type 0 where
  known :
      (t : Target) (name : Option Text) (o : Operator) (value : Option Text) (negate : Bool)
      (ts : List Text)
      → All IsTransform ts
      → KnownCond (record {
        field = field_of t;
        name = name;
        op = op_of o;
        value = value;
        negate = negate;
        transform = ts;
      })

-- An action, its status and its score.
pub data KnownAction : Text × Option ℕ × ℕ → Type 0 where
  allows : KnownAction (lit "allow", none, 0)
  scores : (points : ℕ) → KnownAction (lit "score", none, points)
  blocks : (status : ℕ) → KnownAction (lit "block", some status, 0)
  logs : KnownAction (lit "log", none, 0)

pub data SomeConds : List EmittedCond → Type 0 where
  some_conds :
      (c : EmittedCond) (cs : List EmittedCond)
      → KnownCond c
      → All KnownCond cs
      → SomeConds (c ∷ cs)

pub record KnownRule (r : EmittedRule) : Type 0 where
  pub action : KnownAction (r.action, r.status, r.score)
  pub when : SomeConds r.when

pub record KnownTransforms (rule : ParsedRule) : Type 0 where
  pub all_known : All IsTransform rule.transforms

add_transform-KnownTransforms :
    (t : Option Text) (rule : ParsedRule)
    → KnownTransforms rule
    → KnownTransforms (add_transform t rule)
unfolding add_transform
add_transform-KnownTransforms none rule h = h
add_transform-KnownTransforms (some t) rule h =
    added (map_transform t) (map_transform-KnownTransform t)
  where
    added :
        (m : Transform)
        → KnownTransform m
        → KnownTransforms (elim m [
          | keeps name ↦ record rule { transforms = rule.transforms ++ (name ∷ []) }
          | clears ↦ record rule { transforms = [] }
          | unsupported ↦ rule
        ])
    added m (kept c) = record {
      all_known =
          All-append IsTransform rule.transforms _ h.all_known (IsTransform.transform c, tt);
    }
    added m cleared = record { all_known = tt }
    added m ignored = h

-- The transforms change on the action `t` only.
late_action-transforms :
    (key : Text) (val : Option Text) (rule : ParsedRule)
    → (b : Bool) × ((late_action key val rule).transforms
        ≡ (if b then (add_transform val rule).transforms else rule.transforms))
unfolding late_action
late_action-transforms key val rule = (
  not (eq_text key (lit "status")) && not (eq_text key (lit "msg")) && eq_text key (lit "t"),
  ground arith,
)

apply_action-transforms :
    (key : Text) (val : Option Text) (rule : ParsedRule)
    → (b : Bool) × ((apply_action (key, val) rule).transforms
        ≡ (if b then (late_action key val rule).transforms else rule.transforms))
unfolding apply_action
apply_action-transforms key val rule = (
  not (eq_text key (lit "id"))
      && not (eq_text key (lit "phase"))
      && not (one_of key (lit "deny" ∷ lit "block" ∷ lit "drop" ∷ []))
      && not (eq_text key (lit "allow"))
      && not (eq_text key (lit "pass")),
  ground arith,
)

chosen-KnownTransforms :
    (ts us vs : List Text) (b : Bool)
    → vs ≡ (if b then ts else us)
    → All IsTransform ts
    → All IsTransform us
    → All IsTransform vs
chosen-KnownTransforms ts us vs true e h k = subst (All IsTransform) (sym e) h
chosen-KnownTransforms ts us vs false e h k = subst (All IsTransform) (sym e) k

apply_action-KnownTransforms :
    (a : Text × Option Text) (rule : ParsedRule)
    → KnownTransforms rule
    → KnownTransforms (apply_action a rule)
apply_action-KnownTransforms (key, val) rule h =
    let (b, e) = late_action-transforms key val rule in
    let (d, k) = apply_action-transforms key val rule in
    let late =
      chosen-KnownTransforms _ _ _ b e (add_transform-KnownTransforms val rule h).all_known
        h.all_known in
    record { all_known = chosen-KnownTransforms _ _ _ d k late h.all_known }

apply_actions-KnownTransforms :
    (as' : List (Text × Option Text)) (rule : ParsedRule)
    → KnownTransforms rule
    → KnownTransforms (apply_actions as' rule)
unfolding apply_actions
apply_actions-KnownTransforms [] rule h = h
apply_actions-KnownTransforms (a ∷ as') rule h =
    apply_actions-KnownTransforms as' (apply_action a rule) (apply_action-KnownTransforms a rule h)

-- What a stage gives, if it gives something, satisfies `P`.
pub data IfDone {A : Type 0} (P : A → Type 0) : Converted A → Type 0 where
  not_done : {why : Skip} → IfDone P (skipped why)
  is_done : {a : A} → P a → IfDone P (done a)

pub parse_secrule-KnownTransforms : (rest : Text) → IfDone KnownTransforms (parse_secrule rest)
unfolding parse_secrule secrule_of
parse_secrule-KnownTransforms rest = of_tokens (tokenize rest)
  where
    of_tokens : (tokens : List Text) → IfDone KnownTransforms (secrule_of tokens)
    of_tokens [] = not_done
    of_tokens (vars ∷ []) = not_done
    of_tokens (vars ∷ op ∷ []) = is_done (record { all_known = tt })
    of_tokens (vars ∷ op ∷ actions ∷ more) =
        is_done
          (apply_actions-KnownTransforms (split_actions actions) _ (record { all_known = tt }))

-- `All KnownCond`, as a type of its own
pub data Conds : List EmittedCond → Type 0 where
  conds : (cs : List EmittedCond) → All KnownCond cs → Conds cs

pub var-Conds :
    (m : ParsedRule) (o : Operator) (value : Option Text) (r : Option (Text × Option Text))
    → KnownTransforms m
    → KnownVar r
    → (cs : List EmittedCond) → Conds cs
    → Conds (elim r [
      | none ↦ cs
      | some (field, name) ↦
          record {
            field = field;
            name = name;
            op = op_of o;
            value = value;
            negate = m.negate;
            transform = m.transforms;
          }
          ∷ cs
    ])
var-Conds m o value r h unsupported_var cs k = k
var-Conds m o value r h (target t name) _ (conds cs k) =
    conds _ (known t name o value m.negate m.transforms h.all_known, k)
