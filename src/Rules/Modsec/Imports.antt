-- ===== src/Rules/Modsec/Imports.antt =====
-- crates/budu-rules/src/modsec.rs, crates/budu-rules/src/ruleset.rs: compiling what the converter emits.
use budu_waf.Prelude.{
  ℕ, ◌≡◌, refl, Bool, true, false, Option, none, some, List, [], ◌∷◌, map, arith, Text, All, ℤ, all,
  if_elim, ◌==◌,
}
use budu_waf.External.{Externals}
use budu_waf.Rules.Model.{CompiledCond}
use budu_waf.Rules.Error.{Result, ok, collect}
use budu_waf.Rules.Condition.{compile_cond}
use budu_waf.Rules.Compile.{
  is_response_field, PhaseKind, ActionKind, RuleDef, check_phase, check_phases, check_action,
  compile_action, check_nonempty, compile_rule,
}
use budu_waf.Rules.Modsec.Convert.{EmittedCond, EmittedRule}
use budu_waf.Rules.Modsec.Report.{convert}
use budu_waf.Rules.Modsec.Emitted.{
  KnownCond, KnownAction, allows, scores, blocks, logs, SomeConds, some_conds, KnownRule,
}
use budu_waf.Rules.Modsec.Reports.{convert-KnownReport}
use budu_waf.Rules.Modsec.Importable.{
  cond_def, action_kind, rule_def, importable, Importable, fault, fine, Importable->>=,
  KnownCond-Importable,
}

module _ (x : Externals) (rule : Text) where
  data RequestConds : List (CompiledCond x) → Type 0 where
    no_conds : RequestConds []
    request_cond :
        (c : CompiledCond x) (cs : List (CompiledCond x))
        → is_response_field c.field ≡ false
        → RequestConds cs
        → RequestConds (c ∷ cs)

  conds-Importable :
      (tz : ℤ) (cs : List EmittedCond)
      → All KnownCond cs
      → Importable RequestConds (collect (compile_cond x rule tz) (map cond_def cs))
  unfolding collect
  conds-Importable tz [] h = fine no_conds
  conds-Importable tz (c ∷ cs) (h, hs) =
      Importable->>= (compile_cond x rule tz (cond_def c)) _ (KnownCond-Importable x rule tz c h)
        λ d p.
          Importable->>= (collect (compile_cond x rule tz) (map cond_def cs)) _
            (conds-Importable tz cs hs) λ ds ps. fine (request_cond d ds p ps)

  -- a condition at least
  data SomeRequestConds : List (CompiledCond x) → Type 0 where
    some_request_conds :
        (c : CompiledCond x) (cs : List (CompiledCond x))
        → RequestConds (c ∷ cs)
        → SomeRequestConds (c ∷ cs)

  SomeConds-Importable :
      (tz : ℤ) (cs : List EmittedCond)
      → SomeConds cs
      → Importable SomeRequestConds (collect (compile_cond x rule tz) (map cond_def cs))
  unfolding collect
  SomeConds-Importable tz _ (some_conds c cs h hs) =
      Importable->>= (compile_cond x rule tz (cond_def c)) _ (KnownCond-Importable x rule tz c h)
        λ d p.
          Importable->>= (collect (compile_cond x rule tz) (map cond_def cs)) _
            (conds-Importable tz cs hs)
            λ ds ps. fine (some_request_conds d ds (request_cond d ds p ps))

  check_phases-fine :
      (cs : List (CompiledCond x))
      → RequestConds cs
      → check_phases x rule PhaseKind.request cs ≡ ok tt
  unfolding check_phases check_phase
  check_phases-fine [] no_conds = refl
  check_phases-fine _ (request_cond c cs p h) = rw p (check_phases-fine cs h)

  nonempty-fine :
      (cs : List (CompiledCond x)) → SomeRequestConds cs → check_nonempty x rule cs ≡ ok tt
  unfolding check_nonempty
  nonempty-fine _ (some_request_conds c cs h) = refl

  some_phases-fine :
      (cs : List (CompiledCond x))
      → SomeRequestConds cs
      → check_phases x rule PhaseKind.request cs ≡ ok tt
  some_phases-fine _ (some_request_conds c cs h) = check_phases-fine (c ∷ cs) h

-- the kinds of action that the converter emits
data EmittedKind : ActionKind → Type 0 where
  block : EmittedKind ActionKind.block
  allow : EmittedKind ActionKind.allow
  log : EmittedKind ActionKind.log
  score : EmittedKind ActionKind.score

KnownAction-kind :
    (a : Text × Option ℕ × ℕ)
    → KnownAction a
    → (k : ActionKind) × (action_kind a.0 ≡ some k) × EmittedKind k
unfolding action_kind
KnownAction-kind a allows = (ActionKind.allow, refl, EmittedKind.allow)
KnownAction-kind a (scores points) = (ActionKind.score, refl, EmittedKind.score)
KnownAction-kind a (blocks status) = (ActionKind.block, refl, EmittedKind.block)
KnownAction-kind a logs = (ActionKind.log, refl, EmittedKind.log)

Importable→importable {ℓ} :
    {A : Type ℓ} (P : A → Type 0) (r : Result A) → Importable P r → importable r ≡ true
Importable→importable P r (fault h) = h
Importable→importable P r (fine p) = refl

module _ (x : Externals) (tz : ℤ) (store : ℕ) where
  -- The definition is read, and compiles, or has a fault in a value.
  unfoldable pub imports : EmittedRule → Bool
  unfolding rule_def compile_rule
  imports r = elim (rule_def r) [
    | none ↦ false
    | some def ↦ importable (compile_rule x tz store def)
  ]

  compile_action-Importable :
      (def : RuleDef) (k : ActionKind)
      → EmittedKind k
      → Importable (λ done. Unit {0}) (compile_action x def k store)
  unfolding compile_action
  compile_action-Importable def k EmittedKind.block =
      if_elim (Importable (λ done. Unit {0})) (x.status_ok def.status) (fine tt) (fault refl)
  compile_action-Importable def k EmittedKind.score =
      if_elim (Importable (λ done. Unit {0})) (def.score == 0) (fault refl) (fine tt)
  compile_action-Importable def k EmittedKind.allow = fine tt
  compile_action-Importable def k EmittedKind.log = fine tt

  rule-Importable :
      (def : RuleDef) (cs : List EmittedCond)
      → def.phase ≡ PhaseKind.request
      → def.when ≡ map cond_def cs
      → SomeConds cs
      → EmittedKind def.action
      → Importable (λ r. Unit {0}) (compile_rule x tz store def)
  unfolding compile_rule check_action compile_action
  rule-Importable def cs p e h k =
      rw (p, e)
        (Importable->>= (collect (compile_cond x def.id tz) (map cond_def cs)) _
          (SomeConds-Importable x def.id tz cs h)
          λ ds some.
            rw (nonempty-fine x def.id ds some, some_phases-fine x def.id ds some)
              (Importable->>= (compile_action x def def.action store) _
                (compile_action-Importable def def.action k) λ action _. fine tt))

  KnownRule-imports : (r : EmittedRule) → KnownRule r → imports r ≡ true
  unfolding imports rule_def
  KnownRule-imports r h =
      let (k, e, kind) = KnownAction-kind (r.action, r.status, r.score) h.action in
      rw (e, imports, rule_def)
        (Importable→importable (λ c. Unit {0}) _ (rule-Importable _ r.when refl refl h.when kind))

  all-imports : (rs : List EmittedRule) → All KnownRule rs → all imports rs ≡ true
  all-imports [] h = refl
  all-imports (r ∷ rs) (h, hs) = ground (arith, KnownRule-imports r h, all-imports rs hs)

  -- Every rule that the converter emits is one that the rule file's reader accepts: its action is
  -- known, it has a condition, its fields are of the request, its operators and transforms are known;
  -- compiling it gives a rule, or an error about a value in it (a selector that is empty, a pattern,
  -- an address, a number, a status or a score that is no good), about a build without libinjection, or
  -- about the operator `cidr`, which is emitted for any variable, on a field other than `ip`.
  pub convert-imports : (input : Text) → all imports (convert input).rules ≡ true
  convert-imports input = all-imports (convert input).rules (convert-KnownReport input).all_known
