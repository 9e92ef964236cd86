-- ===== src/Supervisor/Reload.antt =====
-- crates/budu-pipeline/src/lib.rs: what a reload may change.
use budu_waf.Prelude.{
  ℕ, ◌≡◌, refl, inl, inr, true, List, [], Text, ℤ, All, trim, is_empty, arith, Bool-cases,
}
use mathlib.Core.Path.{subst}
use budu_waf.External.{Externals}
use budu_waf.Clock.{parse_tz_offset}
use budu_waf.Reputation.{BlockEntry}
use budu_waf.Signatures.{SignatureDb}
use budu_waf.Rules.Model.{RuleSet}
use budu_waf.Rules.Error
use budu_waf.Rules.Compile.{PhaseKind, RuleDef, ScoringConfig, apply_scoring, compile_with_tz}
use budu_waf.Rules.Compile.Sound.{RuleFits, compile_with_tz-Fits}
use budu_waf.Supervisor.{
  unreadable, bad_timezone, Loaded, failed, loaded, ◌>>=◌, or_fail, of_rules, Outside, Settings,
  Shared, load_signatures, empty_rules, load_rules, load_list, compile_all, store_all, apply,
  load_shared,
}

-- a chain that ends well took every step
pub >>=-eq-loaded {ℓ κ} :
    {A : Type ℓ} {B : Type κ} (r : Loaded A) (next : A → Loaded B) {b : B}
    → (r >>= next) ≡ loaded b
    → (a : A) × (r ≡ loaded a) × (next a ≡ loaded b)
>>=-eq-loaded (failed why) next h = cc
>>=-eq-loaded (loaded a) next h = (a, refl, h)

module _ (x : Externals) where
  -- The rules of a rule set fit their phases, and its status is valid.
  pub record RulesFit (rs : RuleSet x) : Type 0 where
    pub request : All (RuleFits x PhaseKind.request) rs.rules
    pub response : All (RuleFits x PhaseKind.response) rs.response_rules
    pub status : x.status_ok rs.anomaly_status ≡ true

  of_rules-loaded :
      {A : Type 0} (r : Error.Result A) {a : A} → of_rules r ≡ loaded a → r ≡ Error.ok a
  of_rules-loaded (Error.err e) h = cc
  of_rules-loaded (Error.ok b) h = cc

  compiled-RulesFit :
      (defs : List RuleDef) (scoring : ScoringConfig) (tz : ℤ) (store : ℕ) (rs : RuleSet x)
      → compile_with_tz x defs scoring tz store ≡ Error.ok rs
      → RulesFit rs
  compiled-RulesFit defs scoring tz store rs h =
      let (fits, threshold, status, valid) = compile_with_tz-Fits x defs scoring tz store rs h in
      record { request = fits.request_rules; response = fits.response; status = valid }

  empty-RulesFit :
      (scoring : ScoringConfig) (rs : RuleSet x)
      → apply_scoring x scoring (empty_rules x) ≡ Error.ok rs
      → RulesFit rs
  unfolding apply_scoring
  empty-RulesFit scoring rs h =
      let none_request : [] ≡ rs.rules = ground arith in
      let none_response : [] ≡ rs.response_rules = ground arith in
      record {
        request = subst (All (RuleFits x PhaseKind.request)) none_request tt;
        response = subst (All (RuleFits x PhaseKind.response)) none_response tt;
        status = ground arith;
      }

  pub load_rules-RulesFit :
      (out : Outside) (path : Text) (scoring : ScoringConfig) (tz : ℤ) (store : ℕ) (rs : RuleSet x)
      → load_rules x out path scoring tz store ≡ loaded rs
      → RulesFit rs
  unfolding load_rules
  load_rules-RulesFit out path scoring tz store rs = elim (Bool-cases (is_empty (trim path))) [
    | inl e ↦ rw (e, load_rules) (λ h. empty-RulesFit scoring rs (of_rules-loaded _ h))
    | inr e ↦
        rw (e, load_rules)
          (λ h.
            let (defs, k, l) = >>=-eq-loaded (or_fail (out.read_rules path) unreadable) _ h in
            compiled-RulesFit defs scoring tz store rs (of_rules-loaded _ l))
  ]

  -- what `apply` leaves: everything new, or everything as it was
  compile_all-RulesFit :
      (out : Outside) (cfg : Settings x) (now store : ℕ)
      {new : SignatureDb × RuleSet x × List (BlockEntry x)}
      → compile_all x out cfg now store ≡ loaded new
      → RulesFit new.1
  unfolding compile_all
  compile_all-RulesFit out cfg now store {new} h =
      let (sigs, e₁, h₁) = >>=-eq-loaded (load_signatures x out cfg.signatures) _ h in
      let (tz, e₂, h₂) = >>=-eq-loaded (or_fail (parse_tz_offset cfg.timezone) bad_timezone) _ h₁ in
      let (rules, e₃, h₃) = >>=-eq-loaded (load_rules x out cfg.rules cfg.scoring tz store) _ h₂ in
      let (allow, e₄, h₄) =
        >>=-eq-loaded (load_list x out cfg.reputation.allowlist cfg.reputation.allowlist_file now) _
          h₃ in
      let same : rules ≡ new.1 = ground arith in
      subst RulesFit same (load_rules-RulesFit out cfg.rules cfg.scoring tz store rules e₃)

  store_all-RulesFit :
      (r : Loaded (SignatureDb × RuleSet x × List (BlockEntry x))) (shared : Shared x)
      → ((new : SignatureDb × RuleSet x × List (BlockEntry x)) → r ≡ loaded new → RulesFit new.1)
      → RulesFit shared.rules
      → RulesFit (store_all x r shared).0.rules
  store_all-RulesFit (failed why) shared k h = h
  store_all-RulesFit (loaded new) shared k h = k new refl

  pub apply-RulesFit :
      (out : Outside) (cfg : Settings x) (now store : ℕ) (shared : Shared x)
      → RulesFit shared.rules
      → RulesFit (apply x out cfg now store shared).0.rules
  unfolding apply
  apply-RulesFit out cfg now store shared h =
      store_all-RulesFit (compile_all x out cfg now store) shared
        (λ new e. compile_all-RulesFit out cfg now store e) h

  pub load_shared-RulesFit :
      (out : Outside) (cfg : Settings x) (now store : ℕ) {shared : Shared x}
      → load_shared x out cfg now store ≡ loaded shared
      → RulesFit shared.rules
  unfolding load_shared
  load_shared-RulesFit out cfg now store {shared} h =
      let (blocks, e₀, h₀) =
        >>=-eq-loaded (load_list x out cfg.reputation.blocklist cfg.reputation.blocklist_file now) _
          h in
      let (sigs, e₁, h₁) = >>=-eq-loaded (load_signatures x out cfg.signatures) _ h₀ in
      let (tz, e₂, h₂) = >>=-eq-loaded (or_fail (parse_tz_offset cfg.timezone) bad_timezone) _ h₁ in
      let (rules, e₃, h₃) = >>=-eq-loaded (load_rules x out cfg.rules cfg.scoring tz store) _ h₂ in
      let (allow, e₄, h₄) =
        >>=-eq-loaded (load_list x out cfg.reputation.allowlist cfg.reputation.allowlist_file now) _
          h₃ in
      let same : rules ≡ shared.rules = ground arith in
      subst RulesFit same (load_rules-RulesFit out cfg.rules cfg.scoring tz store rules e₃)
