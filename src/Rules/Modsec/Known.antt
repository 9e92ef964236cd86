-- ===== src/Rules/Modsec/Known.antt =====
-- crates/budu-rules/src/modsec.rs: the names that the converter emits.
use budu_waf.Prelude.{
  Option, none, some, List, [], ◌∷◌, Text, lit, is_empty, if_elim, keep, map, trim, split, not,
}
use budu_waf.Rules.Modsec.Tokens.{RawVar}
use budu_waf.Rules.Modsec.Mapping.{
  Skip, Converted, skipped, done, selected, late_var, plain_var, no_regex, map_var, ip_match,
  late_operator, order_operator, plain_operator, map_operator, Transform, keeps, clears,
  unsupported, map_transform,
}

pub data Target : Type 0 where
  method path query uri body ip args arg arg_names args_count : Target
  header headers header_names cookie cookies cookie_names : Target

abbrev pub field_of : Target → Text
field_of Target.method = lit "method"
field_of Target.path = lit "path"
field_of Target.query = lit "query"
field_of Target.uri = lit "uri"
field_of Target.body = lit "body"
field_of Target.ip = lit "ip"
field_of Target.args = lit "args"
field_of Target.arg = lit "arg"
field_of Target.arg_names = lit "arg_names"
field_of Target.args_count = lit "args_count"
field_of Target.header = lit "header"
field_of Target.headers = lit "headers"
field_of Target.header_names = lit "header_names"
field_of Target.cookie = lit "cookie"
field_of Target.cookies = lit "cookies"
field_of Target.cookie_names = lit "cookie_names"

pub data Operator : Type 0 where
  regex contains starts_with ends_with eq gt lt ge le detect_sqli detect_xss cidr : Operator

abbrev pub op_of : Operator → Text
op_of Operator.regex = lit "regex"
op_of Operator.contains = lit "contains"
op_of Operator.starts_with = lit "starts_with"
op_of Operator.ends_with = lit "ends_with"
op_of Operator.eq = lit "eq"
op_of Operator.gt = lit "gt"
op_of Operator.lt = lit "lt"
op_of Operator.ge = lit "ge"
op_of Operator.le = lit "le"
op_of Operator.detect_sqli = lit "detect_sqli"
op_of Operator.detect_xss = lit "detect_xss"
op_of Operator.cidr = lit "cidr"

pub data Change : Type 0 where
  lowercase uppercase url_decode compress_ws remove_nulls trimmed : Change

abbrev pub transform_of : Change → Text
transform_of Change.lowercase = lit "lowercase"
transform_of Change.uppercase = lit "uppercase"
transform_of Change.url_decode = lit "url_decode"
transform_of Change.compress_ws = lit "compress_ws"
transform_of Change.remove_nulls = lit "remove_nulls"
transform_of Change.trimmed = lit "trim"

-- no field, or one of the targets
pub data KnownVar : Option (Text × Option Text) → Type 0 where
  unsupported_var : KnownVar none
  target : (t : Target) (name : Option Text) → KnownVar (some (field_of t, name))

selected-KnownVar :
    (one all : Target) (sel : Option Text)
    → KnownVar (some (selected (field_of one) (field_of all) sel))
selected-KnownVar one all none = target all none
selected-KnownVar one all (some s) = target one (some s)

late_var-KnownVar : (upper : Text) (sel : Option Text) → KnownVar (late_var upper sel)
unfolding late_var
late_var-KnownVar upper sel =
    if_elim KnownVar _ (selected-KnownVar Target.header Target.headers sel) (
      if_elim KnownVar _ (target Target.header_names none) (
        if_elim KnownVar _ (selected-KnownVar Target.cookie Target.cookies sel) (
          if_elim KnownVar _ (target Target.cookie_names none)
            (if_elim KnownVar _ (target Target.ip none) unsupported_var))))

plain_var-KnownVar : (upper : Text) (sel : Option Text) → KnownVar (plain_var upper sel)
unfolding plain_var
plain_var-KnownVar upper sel = if_elim KnownVar _ (selected-KnownVar Target.arg Target.args sel) (
    if_elim KnownVar _ (target Target.arg_names none) (
      if_elim KnownVar _ (target Target.query none) (
        if_elim KnownVar _ (target Target.uri none) (
          if_elim KnownVar _ (target Target.path none) (
            if_elim KnownVar _ (target Target.method none)
              (if_elim KnownVar _ (target Target.body none) (late_var-KnownVar upper sel)))))))

no_regex-KnownVar : (t : Target) (name : Option Text) → KnownVar (no_regex (field_of t, name))
unfolding no_regex
no_regex-KnownVar t none = target t none
no_regex-KnownVar t (some n) = if_elim KnownVar _ unsupported_var (target t (some n))

checked-KnownVar :
    (r : Option (Text × Option Text))
    → KnownVar r
    → KnownVar (elim r [ none ↦ none | some p ↦ no_regex p ])
checked-KnownVar r unsupported_var = unsupported_var
checked-KnownVar r (target t name) = no_regex-KnownVar t name

pub map_var-KnownVar : (v : RawVar) → KnownVar (map_var v)
unfolding map_var
map_var-KnownVar v =
    if_elim KnownVar _ (if_elim KnownVar _ (target Target.args_count none) unsupported_var)
      (checked-KnownVar _ (plain_var-KnownVar _ v.selector))

-- a reason to skip, or one of the operators
pub data KnownOp : Converted (Text × Option Text) → Type 0 where
  refused_op : {why : Skip} → KnownOp (skipped why)
  operator : (o : Operator) (value : Option Text) → KnownOp (done (op_of o, value))

nets-KnownOp :
    (nets : List Text)
    → KnownOp (elim nets [
      | [] ↦ skipped Skip.several_nets
      | one ∷ more ↦ elim more [
        | [] ↦ done (lit "cidr", some one)
        | b ∷ bs ↦ skipped Skip.several_nets
      ]
    ])
nets-KnownOp [] = refused_op
nets-KnownOp (one ∷ []) = operator Operator.cidr (some one)
nets-KnownOp (one ∷ b ∷ bs) = refused_op

ip_match-KnownOp : (argument : Text) → KnownOp (ip_match argument)
unfolding ip_match
ip_match-KnownOp argument =
    nets-KnownOp (keep (λ s. not (is_empty s)) (map trim (split b',' argument)))

late_operator-KnownOp : (name argument : Text) → KnownOp (late_operator name argument)
unfolding late_operator
late_operator-KnownOp name argument = if_elim KnownOp _ (operator Operator.detect_sqli none) (
    if_elim KnownOp _ (operator Operator.detect_xss none) (
      if_elim KnownOp _ (operator Operator.regex _)
        (if_elim KnownOp _ (ip_match-KnownOp argument) (if_elim KnownOp _ refused_op refused_op))))

order_operator-KnownOp : (name argument : Text) → KnownOp (order_operator name argument)
unfolding order_operator
order_operator-KnownOp name argument = if_elim KnownOp _ (operator Operator.gt (some argument)) (
    if_elim KnownOp _ (operator Operator.lt (some argument)) (
      if_elim KnownOp _ (operator Operator.ge (some argument)) (
        if_elim KnownOp _ (operator Operator.le (some argument))
          (late_operator-KnownOp name argument))))

plain_operator-KnownOp : (name argument : Text) → KnownOp (plain_operator name argument)
unfolding plain_operator
plain_operator-KnownOp name argument = if_elim KnownOp _ (operator Operator.regex (some argument)) (
    if_elim KnownOp _ (operator Operator.contains (some argument)) (
      if_elim KnownOp _ (operator Operator.starts_with (some argument)) (
        if_elim KnownOp _ (operator Operator.ends_with (some argument)) (
          if_elim KnownOp _ (operator Operator.eq (some argument))
            (order_operator-KnownOp name argument)))))

pub map_operator-KnownOp : (name argument : Text) → KnownOp (map_operator name argument)
unfolding map_operator
map_operator-KnownOp name argument =
    if_elim KnownOp _ refused_op (plain_operator-KnownOp name argument)

-- a transform of the rule format
pub data IsTransform : Text → Type 0 where
  transform : (c : Change) → IsTransform (transform_of c)

pub data KnownTransform : Transform → Type 0 where
  kept : (c : Change) → KnownTransform (keeps (transform_of c))
  cleared : KnownTransform clears
  ignored : KnownTransform unsupported

pub map_transform-KnownTransform : (t : Text) → KnownTransform (map_transform t)
unfolding map_transform
map_transform-KnownTransform t = if_elim KnownTransform _ cleared (
    if_elim KnownTransform _ (kept Change.lowercase) (
      if_elim KnownTransform _ (kept Change.uppercase) (
        if_elim KnownTransform _ (kept Change.url_decode) (
          if_elim KnownTransform _ (kept Change.compress_ws) (
            if_elim KnownTransform _ (kept Change.remove_nulls)
              (if_elim KnownTransform _ (kept Change.trimmed) ignored))))))
