-- ===== src/Supervisor/Steps.antt =====
-- crates/budu/src/main.rs: what the rounds of the supervisor's loop do.
use budu_waf.Prelude.{ℕ, ◌≡◌, refl, sym, false, some, is_none, List, arith}
use mathlib.Core.Path.{subst}
use budu_waf.External.{Externals}
use budu_waf.Reputation.{BlockEntry}
use budu_waf.Rules.Model.{RuleSet}
use budu_waf.Signatures.{SignatureDb}
use budu_waf.Supervisor.{
  Loaded, failed, loaded, Outside, Settings, Shared, load_list, compile_all, store_all,
  store_blocks, apply, refresh_blocklist, load_shared, State, start, hangup,
}
use budu_waf.Supervisor.Reload.{>>=-eq-loaded, RulesFit, load_shared-RulesFit}

module _ (x : Externals) where
  store_blocks-rest :
      (r : Loaded (List (BlockEntry x))) (feeds : List (BlockEntry x)) (shared : Shared x)
      → ((store_blocks x r feeds shared).0.signatures ≡ shared.signatures)
        × ((store_blocks x r feeds shared).0.rules ≡ shared.rules)
        × ((store_blocks x r feeds shared).0.allowlist ≡ shared.allowlist)
  store_blocks-rest (failed why) feeds shared = (refl, refl, refl)
  store_blocks-rest (loaded blocks) feeds shared = (refl, refl, refl)

  -- a refresh changes the block list only
  pub refresh-rest :
      (out : Outside) (cfg : Settings x) (now : ℕ) (shared : Shared x)
      → ((refresh_blocklist x out cfg now shared).0.signatures ≡ shared.signatures)
        × ((refresh_blocklist x out cfg now shared).0.rules ≡ shared.rules)
        × ((refresh_blocklist x out cfg now shared).0.allowlist ≡ shared.allowlist)
  unfolding refresh_blocklist
  refresh-rest out cfg now shared =
      store_blocks-rest (load_list x out cfg.reputation.blocklist cfg.reputation.blocklist_file now)
        _ shared

  pub refresh-RulesFit :
      (out : Outside) (cfg : Settings x) (now : ℕ) (shared : Shared x)
      → RulesFit x shared.rules
      → RulesFit x (refresh_blocklist x out cfg now shared).0.rules
  refresh-RulesFit out cfg now shared h =
      subst (RulesFit x) (sym (refresh-rest out cfg now shared).1) h

  pub start-RulesFit :
      (out : Outside) (cfg : Settings x) (now store : ℕ) (s : State x)
      → start x out cfg now store ≡ loaded s
      → RulesFit x s.shared.rules
  unfolding start
  start-RulesFit out cfg now store s e =
      let (shared, k, l) = >>=-eq-loaded (load_shared x out cfg now store) _ e in
      let fits = refresh-RulesFit out cfg now shared (load_shared-RulesFit x out cfg now store k) in
      let same : (refresh_blocklist x out cfg now shared).0.rules ≡ s.shared.rules = ground arith in
      subst (RulesFit x) same fits

  pub start-settings :
      (out : Outside) (cfg : Settings x) (now store : ℕ) {sup : State x}
      → start x out cfg now store ≡ loaded sup
      → sup.settings ≡ cfg
  unfolding start
  start-settings out cfg now store {sup} e =
      let (shared, k, l) = >>=-eq-loaded (load_shared x out cfg now store) _ e in ground arith

  store_all-fails :
      (r : Loaded (SignatureDb × RuleSet x × List (BlockEntry x))) (shared : Shared x)
      → is_none (store_all x r shared).1 ≡ false
      → (store_all x r shared).0 ≡ shared
  store_all-fails (failed why) shared h = refl
  store_all-fails (loaded new) shared h = absurd (cc)

  -- A reload whose configuration can be read, but by which the signatures, the time zone, the rules or
  -- the allow list do not load, leaves all three lists of them as they were. The configuration is
  -- replaced all the same, and what is shared is what a refresh of the block list by the new
  -- configuration makes of it: the old block list, if its file cannot be read.
  pub hangup-apply_fails :
      (out : Outside) (cfg : Settings x) (now store : ℕ) (s : State x)
      → is_none (apply x out cfg now store s.shared).1 ≡ false
      → ((hangup x out (some cfg) now store s).shared.signatures ≡ s.shared.signatures)
        × ((hangup x out (some cfg) now store s).shared.rules ≡ s.shared.rules)
        × ((hangup x out (some cfg) now store s).shared.allowlist ≡ s.shared.allowlist)
        × ((hangup x out (some cfg) now store s).shared
            ≡ (refresh_blocklist x out cfg now s.shared).0)
        × ((hangup x out (some cfg) now store s).settings ≡ cfg)
  unfolding hangup apply
  hangup-apply_fails out cfg now store s h =
      let kept = store_all-fails (compile_all x out cfg now store) s.shared h in
      let (sigs, rules, allow) = refresh-rest out cfg now s.shared in
      rw kept (sigs, rules, allow, refl, refl)
