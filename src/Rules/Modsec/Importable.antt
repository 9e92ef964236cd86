-- ===== src/Rules/Modsec/Importable.antt =====
-- crates/budu-rules/src/modsec.rs, crates/budu-rules/src/ruleset.rs: the converter's rules, read as rule
-- definitions and compiled.
use budu_waf.Prelude.{
  ◌≡◌, refl, Bool, true, false, Option, none, some, List, [], ◌∷◌, map, Text, lit, to_lower, All,
  eq_text, unwrap_or, ℤ, if◌then◌else◌, if_elim, is_empty, trim, parse_signed, i64_max, not,
}
use budu_waf.External.{Externals}
use budu_waf.Reputation.{parse_target}
use budu_waf.Rules.Model.{Field, Op}
use budu_waf.Rules.Error.{Reason, invalid, Result, ok, err, ◌>>=◌, or_fail, collect}
use budu_waf.Rules.Condition.{
  CondDef, compile_field, num, is_ip, is_time, is_day, compile_transform, compile_cidr,
  compile_clock_op, compile_number_op, compile_late_op, compile_op, check_field_op, compile_cond,
}
use budu_waf.Rules.Compile.{is_response_field, PhaseKind, ActionKind, RuleDef}
use budu_waf.Rules.Modsec.Convert.{EmittedCond, EmittedRule}
use budu_waf.Rules.Modsec.Known.{Target, field_of, Operator, op_of, Change, IsTransform}
use budu_waf.Rules.Modsec.Emitted.{KnownCond, known}

-- What serde reads from what it wrote of a condition: what was left out has its default.
abbrev pub cond_def : EmittedCond → CondDef
cond_def c = record {
  field = c.field;
  name = unwrap_or c.name [];
  op = c.op;
  value = unwrap_or c.value [];
  values = [];
  negate = c.negate;
  transform = c.transform;
  tz = [];
}

unfoldable pub action_kind : Text → Option ActionKind
action_kind s =
    if eq_text s (lit "block")
    then some ActionKind.block
    else if eq_text s (lit "allow")
    then some ActionKind.allow
    else if eq_text s (lit "log")
    then some ActionKind.log
    else if eq_text s (lit "rate_limit")
    then some ActionKind.rate_limit
    else if eq_text s (lit "score")
    then some ActionKind.score
    else if eq_text s (lit "incr")
    then some ActionKind.incr
    else none

-- the same for a rule: `none` is an action that serde refuses
unfoldable pub rule_def : EmittedRule → Option RuleDef
unfolding action_kind
rule_def r = elim (action_kind r.action) [
  | none ↦ none
  | some action ↦ some (record {
    id = r.id;
    phase = PhaseKind.request;
    action = action;
    status = unwrap_or r.status 403;
    msg = r.msg;
    rps = 0;
    burst = 0;
    ttl_secs = 300;
    score = r.score;
    counter = [];
    incr = 1;
    when = map cond_def r.when;
  })
]

-- The faults that are in a value of the rule.
abbrev pub value_fault : Reason → Bool
value_fault Reason.no_name = true
value_fault Reason.bad_regex = true
value_fault Reason.bad_cidr = true
value_fault Reason.not_numeric = true
value_fault Reason.bad_status = true
value_fault Reason.no_score = true
value_fault _ = false

-- The faults that an emitted rule can have: one in a value, a build without libinjection, and an
-- address operator on a field that is no address.
abbrev pub import_fault : Reason → Bool
import_fault Reason.no_libinjection = true
import_fault Reason.cidr_field = true
import_fault why = value_fault why

-- a result, or such a fault
abbrev pub importable {ℓ} : {A : Type ℓ} → Result A → Bool
importable (ok a) = true
importable (err (invalid rule why)) = import_fault why

-- A stage that is importable, followed by one that is wherever it is reached.
pub data Importable {ℓ} {A : Type ℓ} (P : A → Type 0) : Result A → Type ℓ where
  fault :
      {rule : Text} {why : Reason} → import_fault why ≡ true → Importable P (err (invalid rule why))
  fine : {a : A} → P a → Importable P (ok a)

pub Importable->>= {ℓ κ} :
    {A : Type ℓ} {B : Type κ} {P : A → Type 0} {Q : B → Type 0} (r : Result A) (f : A → Result B)
    → Importable P r
    → ((a : A) → P a → Importable Q (f a))
    → Importable Q (r >>= f)
Importable->>= r f (fault h) k = fault h
Importable->>= r f (fine {a = a} p) k = k a p

-- a value that is read from a text, or its fault
or_fail-Importable {ℓ κ} :
    {A : Type ℓ} {B : Type κ} (o : Option A) (rule : Text) (why : Reason) (f : A → B)
    → import_fault why ≡ true
    → Importable (λ b. Unit {0}) (or_fail o (invalid rule why) >>= λ a. ok (f a))
or_fail-Importable none rule why f h = fault h
or_fail-Importable (some a) rule why f h = fine tt

-- a field of the request, neither the time nor the day
pub record PlainField (f : Field) : Type 0 where
  pub time : is_time f ≡ false
  pub day : is_day f ≡ false
  pub request : is_response_field f ≡ false

named-Importable :
    (rule name : Text) (f : Text → Field)
    → ((n : Text) → PlainField (f n))
    → Importable PlainField
        (if is_empty (trim name) then err (invalid rule Reason.no_name) else ok (f name))
named-Importable rule name f h = if_elim (Importable PlainField) _ (fault refl) (fine (h name))

pub compile_field-Importable :
    (rule : Text) (t : Target) (c : CondDef)
    → c.field ≡ field_of t
    → Importable PlainField (compile_field rule c)
unfolding compile_field is_time is_day is_response_field
compile_field-Importable rule Target.method c e =
    rw e (fine (record { time = refl; day = refl; request = refl }))
compile_field-Importable rule Target.path c e =
    rw e (fine (record { time = refl; day = refl; request = refl }))
compile_field-Importable rule Target.query c e =
    rw e (fine (record { time = refl; day = refl; request = refl }))
compile_field-Importable rule Target.uri c e =
    rw e (fine (record { time = refl; day = refl; request = refl }))
compile_field-Importable rule Target.body c e =
    rw e (fine (record { time = refl; day = refl; request = refl }))
compile_field-Importable rule Target.ip c e =
    rw e (fine (record { time = refl; day = refl; request = refl }))
compile_field-Importable rule Target.args c e =
    rw e (fine (record { time = refl; day = refl; request = refl }))
compile_field-Importable rule Target.arg_names c e =
    rw e (fine (record { time = refl; day = refl; request = refl }))
compile_field-Importable rule Target.args_count c e =
    rw e (fine (record { time = refl; day = refl; request = refl }))
compile_field-Importable rule Target.headers c e =
    rw e (fine (record { time = refl; day = refl; request = refl }))
compile_field-Importable rule Target.header_names c e =
    rw e (fine (record { time = refl; day = refl; request = refl }))
compile_field-Importable rule Target.cookies c e =
    rw e (fine (record { time = refl; day = refl; request = refl }))
compile_field-Importable rule Target.cookie_names c e =
    rw e (fine (record { time = refl; day = refl; request = refl }))
compile_field-Importable rule Target.arg c e = rw e (
    named-Importable rule c.name Field.arg
      (λ n. record { time = refl; day = refl; request = refl }))
compile_field-Importable rule Target.header c e = rw e (
    named-Importable rule c.name (λ n. Field.header (to_lower n))
      (λ n. record { time = refl; day = refl; request = refl }))
compile_field-Importable rule Target.cookie c e = rw e (
    named-Importable rule c.name Field.cookie
      (λ n. record { time = refl; day = refl; request = refl }))

module _ (x : Externals) (rule : Text) (field : Field) (c : CondDef) (tz : ℤ) where
  compile_cidr-Importable : Importable (λ o. Unit {0}) (compile_cidr x rule field c.value)
  unfolding compile_cidr parse_target
  compile_cidr-Importable =
      if_elim (Importable (λ o. Unit {0})) (not (is_ip field)) (fault refl)
        (or_fail-Importable (parse_target x c.value) rule Reason.bad_cidr Op.cidr refl)

  num-Importable : (f : ℤ → Op x) → Importable (λ o. Unit {0}) (num rule c.value >>= λ n. ok (f n))
  unfolding num
  num-Importable f =
      or_fail-Importable (parse_signed i64_max (trim c.value)) rule Reason.not_numeric f refl

  pub compile_op-Importable :
      (o : Operator) → c.op ≡ op_of o → Importable (λ o'. Unit {0}) (compile_op x rule field c tz)
  unfolding compile_op compile_late_op compile_number_op compile_clock_op
  compile_op-Importable Operator.regex e =
      rw e (or_fail-Importable (x.build_regex c.value) rule Reason.bad_regex Op.regex refl)
  compile_op-Importable Operator.contains e = rw e (fine tt)
  compile_op-Importable Operator.starts_with e = rw e (fine tt)
  compile_op-Importable Operator.ends_with e = rw e (fine tt)
  compile_op-Importable Operator.eq e = rw e (fine tt)
  compile_op-Importable Operator.gt e = rw e (num-Importable Op.gt)
  compile_op-Importable Operator.lt e = rw e (num-Importable Op.lt)
  compile_op-Importable Operator.ge e = rw e (num-Importable Op.ge)
  compile_op-Importable Operator.le e = rw e (num-Importable Op.le)
  compile_op-Importable Operator.detect_sqli e =
      rw e (if_elim (Importable (λ o'. Unit {0})) x.libinjection (fine tt) (fault refl))
  compile_op-Importable Operator.detect_xss e =
      rw e (if_elim (Importable (λ o'. Unit {0})) x.libinjection (fine tt) (fault refl))
  compile_op-Importable Operator.cidr e = rw e compile_cidr-Importable

  check_field_op-Importable :
      (op : Op x) → PlainField field → Importable (λ u. Unit {0}) (check_field_op x rule field op)
  unfolding check_field_op
  check_field_op-Importable op h = rw (h.time, h.day) (fine tt)

known_transforms-Importable :
    (rule : Text) (ts : List Text)
    → All IsTransform ts
    → Importable (λ us. Unit {0}) (collect (compile_transform rule) ts)
unfolding collect compile_transform
known_transforms-Importable rule [] h = fine tt
known_transforms-Importable rule (t ∷ ts) (h, hs) =
    Importable->>= (compile_transform rule t) _ (one t h) (λ u k.
      Importable->>= (collect (compile_transform rule) ts) _
        (known_transforms-Importable rule ts hs) (λ us l. fine tt))
  where
    one : (t : Text) → IsTransform t → Importable (λ u. Unit {0}) (compile_transform rule t)
    one t (IsTransform.transform Change.lowercase) = fine tt
    one t (IsTransform.transform Change.uppercase) = fine tt
    one t (IsTransform.transform Change.url_decode) = fine tt
    one t (IsTransform.transform Change.compress_ws) = fine tt
    one t (IsTransform.transform Change.remove_nulls) = fine tt
    one t (IsTransform.transform Change.trimmed) = fine tt

pub KnownCond-Importable :
    (x : Externals) (rule : Text) (tz : ℤ) (c : EmittedCond)
    → KnownCond c
    → Importable (λ d. is_response_field d.field ≡ false) (compile_cond x rule tz (cond_def c))
unfolding compile_cond
KnownCond-Importable x rule tz c (known t name o value negate ts h) =
    let d = cond_def c in
    Importable->>= (compile_field rule d) _ (compile_field-Importable rule t d refl) λ field plain.
      Importable->>= (compile_op x rule field d tz) _
        (compile_op-Importable x rule field d tz o refl)
        λ op _.
          Importable->>= (check_field_op x rule field op) _
            (check_field_op-Importable x rule field d tz op plain)
            λ _ _.
              Importable->>= (collect (compile_transform rule) ts) _
                (known_transforms-Importable rule ts h) λ us _. fine plain.request
