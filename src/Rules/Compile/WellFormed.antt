-- ===== src/Rules/Compile/WellFormed.antt =====
-- crates/budu-rules/src/ruleset.rs: what a condition that compiles is like.
use budu_waf.Prelude.{◌≡◌, not, ◌||◌, Bool, true, Text, ℤ, arith}
use mathlib.Core.Path.{subst}
use budu_waf.External.{Externals}
use budu_waf.Rules.Model.{Field, Op, CompiledCond}
use budu_waf.Rules.Error.{ok, collect, >>=-eq-ok, ok-injective}
use budu_waf.Rules.Condition.{
  CondDef, is_ip, is_time, is_day, is_time_between, is_day_of_week, compile_cidr, compile_time,
  compile_day, compile_op, compile_clock_op, compile_number_op, compile_late_op, compile_transform,
  check_field_op, compile_field, compile_cond,
}

module _ (x : Externals) where
  -- An operator that only one field may have stands on that field.
  abbrev pub op_fits : Field → Op x → Bool
  op_fits field (Op.cidr net) = is_ip field
  op_fits field (Op.time_between start end offset) = is_time field
  op_fits field (Op.day_of_week mask offset) = is_day field
  op_fits field _ = true

  pub record CondFits (c : CompiledCond x) : Type 0 where
    pub op : op_fits c.field c.op ≡ true
    pub time : not (is_time c.field) || is_time_between x c.op ≡ true
    pub day : not (is_day c.field) || is_day_of_week x c.op ≡ true

  cidr-fits :
      (rule : Text) (field : Field) (v : Text) (op : Op x)
      → compile_cidr x rule field v ≡ ok op
      → op_fits field op ≡ true
  unfolding compile_cidr
  cidr-fits rule field v op h = ground arith

  time-fits :
      (rule : Text) (field : Field) (c : CondDef) (tz : ℤ) (op : Op x)
      → compile_time x rule field c tz ≡ ok op
      → op_fits field op ≡ true
  unfolding compile_time
  time-fits rule field c tz op h = ground arith

  day-fits :
      (rule : Text) (field : Field) (c : CondDef) (tz : ℤ) (op : Op x)
      → compile_day x rule field c tz ≡ ok op
      → op_fits field op ≡ true
  unfolding compile_day
  day-fits rule field c tz op h = ground arith

  clock-fits :
      (rule : Text) (field : Field) (c : CondDef) (tz : ℤ) (op : Op x)
      → compile_clock_op x rule field c tz ≡ ok op
      → op_fits field op ≡ true
  unfolding compile_clock_op
  clock-fits rule field c tz op h =
      ground (arith, time-fits rule field c tz op, day-fits rule field c tz op)

  number-fits :
      (rule : Text) (field : Field) (c : CondDef) (tz : ℤ) (op : Op x)
      → compile_number_op x rule field c tz ≡ ok op
      → op_fits field op ≡ true
  unfolding compile_number_op
  number-fits rule field c tz op h = ground (arith, clock-fits rule field c tz op)

  late-fits :
      (rule : Text) (field : Field) (c : CondDef) (tz : ℤ) (op : Op x)
      → compile_late_op x rule field c tz ≡ ok op
      → op_fits field op ≡ true
  unfolding compile_late_op
  late-fits rule field c tz op h =
      ground (arith, cidr-fits rule field c.value op, number-fits rule field c tz op)

  op-fits :
      (rule : Text) (field : Field) (c : CondDef) (tz : ℤ) (op : Op x)
      → compile_op x rule field c tz ≡ ok op
      → op_fits field op ≡ true
  unfolding compile_op
  op-fits rule field c tz op h = ground (arith, late-fits rule field c tz op)

  check_field_op-fits :
      (rule : Text) (field : Field) (op : Op x)
      → check_field_op x rule field op ≡ ok tt
      → (not (is_time field) || is_time_between x op ≡ true)
        × (not (is_day field) || is_day_of_week x op ≡ true)
  unfolding check_field_op
  check_field_op-fits rule field op h = (ground arith, ground arith)

  pub compile_cond-CondFits :
      (rule : Text) (tz : ℤ) (d : CondDef) (c : CompiledCond x)
      → compile_cond x rule tz d ≡ ok c
      → CondFits c
  unfolding compile_cond
  compile_cond-CondFits rule tz d c h =
      let (field, e₁, h₁) = >>=-eq-ok (compile_field rule d) _ h in
      let (op, e₂, h₂) = >>=-eq-ok (compile_op x rule field d tz) _ h₁ in
      let (u, e₃, h₃) = >>=-eq-ok (check_field_op x rule field op) _ h₂ in
      let (ts, e₄, h₄) = >>=-eq-ok (collect (compile_transform rule) d.transform) _ h₃ in
      let (t, y) = check_field_op-fits rule field op (ground arith) in
      subst CondFits (ok-injective h₄)
        (record { op = op-fits rule field d tz op e₂; time = t; day = y })
