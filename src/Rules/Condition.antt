-- ===== src/Rules/Condition.antt =====
-- crates/budu-rules/src/ruleset.rs: compile_cond, the compilation of one condition.
use budu_waf.Prelude.{
  Bool, true, false, ◌&&◌, none, some, List, Text, lit, eq_text, trim, to_lower, is_empty,
  parse_signed, i64_max, ℤ, not, or_else, if◌then◌else◌,
}
use budu_waf.External.{Externals}
use budu_waf.Clock.{parse_tz_offset, parse_time_window, parse_day_mask}
use budu_waf.Rules.Model.{Field, Op, Transform, CompiledCond}
use budu_waf.Rules.Error.{Reason, invalid, Result, ok, err, ◌>>=◌, or_fail, collect}

pub record CondDef : Type 0 where
  pub field : Text
  pub name : Text
  pub op : Text
  pub value : Text
  pub values : List Text
  pub negate : Bool
  pub transform : List Text
  pub tz : Text

-- a field that wants a name
abbrev with_name : Text → Text → (Text → Field) → Result Field
with_name rule name f =
    if is_empty (trim name) then err (invalid rule Reason.no_name) else ok (f name)

unfoldable pub compile_field : Text → CondDef → Result Field
compile_field rule c =
    if eq_text c.field (lit "method")
    then ok Field.method
    else if eq_text c.field (lit "path")
    then ok Field.path
    else if eq_text c.field (lit "query")
    then ok Field.query
    else if eq_text c.field (lit "uri")
    then ok Field.uri
    else if eq_text c.field (lit "body")
    then ok Field.body
    else if eq_text c.field (lit "ip")
    then ok Field.ip
    else if eq_text c.field (lit "country")
    then ok Field.country
    else if eq_text c.field (lit "header")
    then with_name rule c.name (λ n. Field.header (to_lower n))
    else if eq_text c.field (lit "arg")
    then with_name rule c.name Field.arg
    else if eq_text c.field (lit "counter")
    then with_name rule c.name Field.counter
    else if eq_text c.field (lit "status")
    then ok Field.status
    else if eq_text c.field (lit "resp_header")
    then with_name rule c.name (λ n. Field.resp_header (to_lower n))
    else if eq_text c.field (lit "resp_body")
    then ok Field.resp_body
    else if eq_text c.field (lit "arg_names")
    then ok Field.arg_names
    else if eq_text c.field (lit "args_count")
    then ok Field.args_count
    else if eq_text c.field (lit "args")
    then ok Field.args
    else if eq_text c.field (lit "headers")
    then ok Field.headers
    else if eq_text c.field (lit "header_names")
    then ok Field.header_names
    else if eq_text c.field (lit "cookies")
    then ok Field.cookies
    else if eq_text c.field (lit "cookie")
    then with_name rule c.name Field.cookie
    else if eq_text c.field (lit "cookie_names")
    then ok Field.cookie_names
    else if eq_text c.field (lit "time")
    then ok Field.time
    else if eq_text c.field (lit "day")
    then ok Field.day
    else err (invalid rule Reason.unknown_field)

unfoldable pub resolve_tz : Text → CondDef → ℤ → Result ℤ
resolve_tz rule c default_tz =
    if is_empty (trim c.tz)
    then ok default_tz
    else or_fail (parse_tz_offset c.tz) (invalid rule Reason.bad_tz)

unfoldable pub num : Text → Text → Result ℤ
num rule s = or_fail (parse_signed i64_max (trim s)) (invalid rule Reason.not_numeric)

unfoldable pub is_ip : Field → Bool
is_ip Field.ip = true
is_ip _ = false

unfoldable pub is_time : Field → Bool
is_time Field.time = true
is_time _ = false

unfoldable pub is_day : Field → Bool
is_day Field.day = true
is_day _ = false

unfoldable pub compile_transform : Text → Text → Result Transform
compile_transform rule t =
    if eq_text t (lit "lowercase")
    then ok Transform.lowercase
    else if eq_text t (lit "uppercase")
    then ok Transform.uppercase
    else if eq_text t (lit "url_decode")
    then ok Transform.url_decode
    else if eq_text t (lit "compress_ws")
    then ok Transform.compress_ws
    else if eq_text t (lit "remove_nulls")
    then ok Transform.remove_nulls
    else if eq_text t (lit "trim")
    then ok Transform.trimmed
    else err (invalid rule Reason.unknown_transform)

module _ (x : Externals) where
  unfoldable pub compile_cidr : Text → Field → Text → Result (Op x)
  compile_cidr rule field value =
      if not (is_ip field)
      then err (invalid rule Reason.cidr_field)
      else (or_fail
            (or_else (x.parse_net value)
              (elim (x.parse_ip value) [ none ↦ none | some ip ↦ some (x.host_net ip) ]))
            (invalid rule Reason.bad_cidr)
          >>= λ net. ok (Op.cidr net))

  unfoldable pub compile_time : Text → Field → CondDef → ℤ → Result (Op x)
  compile_time rule field c default_tz =
      if not (is_time field)
      then err (invalid rule Reason.time_field)
      else (or_fail (parse_time_window c.value) (invalid rule Reason.bad_window) >>= λ w.
          resolve_tz rule c default_tz >>= λ offset. ok (Op.time_between w.0 w.1 offset))

  unfoldable pub compile_day : Text → Field → CondDef → ℤ → Result (Op x)
  compile_day rule field c default_tz =
      if not (is_day field)
      then err (invalid rule Reason.day_field)
      else (or_fail (parse_day_mask c.value) (invalid rule Reason.bad_days) >>= λ mask.
          resolve_tz rule c default_tz >>= λ offset. ok (Op.day_of_week mask offset))

  abbrev with_libinjection : Text → Op x → Result (Op x)
  with_libinjection rule o =
      if x.libinjection then ok o else err (invalid rule Reason.no_libinjection)

  -- The match on the operator's name is four functions, each with the names that the next one takes.
  unfoldable pub compile_clock_op : Text → Field → CondDef → ℤ → Result (Op x)
  compile_clock_op rule field c default_tz =
      if eq_text c.op (lit "time_between")
      then compile_time rule field c default_tz
      else if eq_text c.op (lit "day_of_week")
      then compile_day rule field c default_tz
      else if eq_text c.op (lit "detect_sqli")
      then with_libinjection rule Op.detect_sqli
      else if eq_text c.op (lit "detect_xss")
      then with_libinjection rule Op.detect_xss
      else err (invalid rule Reason.unknown_op)

  unfoldable pub compile_number_op : Text → Field → CondDef → ℤ → Result (Op x)
  compile_number_op rule field c default_tz =
      if eq_text c.op (lit "gt")
      then (num rule c.value >>= λ n. ok (Op.gt n))
      else if eq_text c.op (lit "lt")
      then (num rule c.value >>= λ n. ok (Op.lt n))
      else if eq_text c.op (lit "ge")
      then (num rule c.value >>= λ n. ok (Op.ge n))
      else if eq_text c.op (lit "le")
      then (num rule c.value >>= λ n. ok (Op.le n))
      else compile_clock_op rule field c default_tz

  unfoldable pub compile_late_op : Text → Field → CondDef → ℤ → Result (Op x)
  compile_late_op rule field c default_tz =
      if eq_text c.op (lit "regex")
      then (or_fail (x.build_regex c.value) (invalid rule Reason.bad_regex) >>= λ re.
          ok (Op.regex re))
      else if eq_text c.op (lit "cidr")
      then compile_cidr rule field c.value
      else if eq_text c.op (lit "in")
      then (if is_empty c.values
          then err (invalid rule Reason.empty_values)
          else ok (Op.one_of c.values))
      else compile_number_op rule field c default_tz

  unfoldable pub compile_op : Text → Field → CondDef → ℤ → Result (Op x)
  compile_op rule field c default_tz =
      if eq_text c.op (lit "eq")
      then ok (Op.eq c.value)
      else if eq_text c.op (lit "ne")
      then ok (Op.ne c.value)
      else if eq_text c.op (lit "contains")
      then ok (Op.contains c.value)
      else if eq_text c.op (lit "starts_with")
      then ok (Op.starts_with c.value)
      else if eq_text c.op (lit "ends_with")
      then ok (Op.ends_with c.value)
      else compile_late_op rule field c default_tz

  unfoldable pub is_time_between : Op x → Bool
  is_time_between (Op.time_between start end offset) = true
  is_time_between _ = false

  unfoldable pub is_day_of_week : Op x → Bool
  is_day_of_week (Op.day_of_week mask offset) = true
  is_day_of_week _ = false

  -- the last match of `compile_cond`
  unfoldable pub check_field_op : Text → Field → Op x → Result (Unit {0})
  check_field_op rule field op =
      if is_time field && not (is_time_between op)
      then err (invalid rule Reason.time_op)
      else if is_day field && not (is_day_of_week op)
      then err (invalid rule Reason.day_op)
      else ok tt

  unfoldable pub compile_cond : Text → ℤ → CondDef → Result (CompiledCond x)
  compile_cond rule default_tz c = compile_field rule c >>= λ field.
      compile_op rule field c default_tz >>= λ op. check_field_op rule field op >>= λ _.
      collect (compile_transform rule) c.transform >>= λ transforms.
      ok (record { field = field; op = op; negate = c.negate; transforms = transforms })
