-- ===== src/Supervisor.antt =====
-- crates/budu-pipeline/src/lib.rs, crates/budu-reputation/src/lib.rs and crates/budu/src/main.rs: what is
-- loaded at the start, and how the supervisor replaces it while the proxy runs. What the file system, serde
-- and the network give at one moment is a record of functions.
pub mod Reload
pub mod Steps
use budu_waf.Prelude.{
  ℕ, Bool, true, false, Option, none, some, List, [], ◌∷◌, ◌++◌, Text, lit, trim, is_empty, ltb, ℤ,
  if◌then◌else◌,
}
use budu_waf.External.{Externals}
use budu_waf.Clock.{parse_tz_offset}
use budu_waf.Reputation.{BlockEntry, build_blocks, parse_blocklist, prune_expired}
use budu_waf.Signatures
use budu_waf.Signatures.{Signature, SignatureDb, SignatureError}
use budu_waf.Signatures.Builtin.{signatures}
use budu_waf.Rules.Model.{RuleSet}
use budu_waf.Rules.Error
use budu_waf.Rules.Error.{RuleError}
use budu_waf.Rules.Compile.{RuleDef, ScoringConfig, apply_scoring, compile_with_tz}

-- why something is not loaded
pub data LoadError : Type 0 where
  unreadable bad_timezone : LoadError
  bad_signatures : SignatureError → LoadError
  bad_rules : RuleError → LoadError

pub data Loaded {ℓ} (A : Type ℓ) : Type ℓ where
  failed : LoadError → Loaded A
  loaded : A → Loaded A

infixl 5 ◌>>=◌
-- the `?` operator
abbrev pub ◌>>=◌ {ℓ κ} : {A : Type ℓ} {B : Type κ} → Loaded A → (A → Loaded B) → Loaded B
failed why >>= next = failed why
loaded a >>= next = next a

abbrev pub or_fail {ℓ} : {A : Type ℓ} → Option A → LoadError → Loaded A
or_fail none why = failed why
or_fail (some a) why = loaded a

abbrev pub of_signatures : Signatures.Result SignatureDb → Loaded SignatureDb
of_signatures (Signatures.err e) = failed (bad_signatures e)
of_signatures (Signatures.ok db) = loaded db

abbrev pub of_rules {ℓ} : {A : Type ℓ} → Error.Result A → Loaded A
of_rules (Error.err e) = failed (bad_rules e)
of_rules (Error.ok a) = loaded a

-- What a build has, and what files and feeds hold at a moment: read as a text, as a file of signatures,
-- and as a file of rules.
pub record Outside : Type 0 where
  pub fail2ban : Bool
  pub remote_blocklist : Bool
  pub read_text : Text → Option Text
  pub read_signatures : Text → Option (List Signature)
  pub read_rules : Text → Option (List RuleDef)
  pub client_ok : Bool
  pub fetch : Text → Option Text

module _ (x : Externals) where
  pub record ReputationConfig : Type 0 where
    pub blocklist : List x.Net
    pub blocklist_file : Text
    pub blocklist_urls : List Text
    pub refresh_secs : ℕ
    pub allowlist : List x.Net
    pub allowlist_file : Text

  -- The fields of `Config` that are loaded from.
  pub record Settings : Type 0 where
    pub signatures : Text
    pub rules : Text
    pub timezone : Text
    pub scoring : ScoringConfig
    pub reputation : ReputationConfig

  -- What the supervisor and the pipeline share.
  pub record Shared : Type 0 where
    pub signatures : SignatureDb
    pub rules : RuleSet x
    pub blocks : List (BlockEntry x)
    pub allowlist : List (BlockEntry x)

  unfoldable pub load_signatures : Outside → Text → Loaded SignatureDb
  load_signatures out path =
      if is_empty (trim path)
      then of_signatures (Signatures.compile x signatures)
      else (or_fail (out.read_signatures path) unreadable >>= λ sigs.
          of_signatures (Signatures.compile x sigs))

  abbrev pub empty_rules : RuleSet x
  empty_rules = record {
    rules = [];
    response_rules = [];
    threshold = 0;
    anomaly_status = 403;
    anomaly_msg = lit "anomaly score threshold exceeded";
  }

  unfoldable pub load_rules : Outside → Text → ScoringConfig → ℤ → ℕ → Loaded (RuleSet x)
  load_rules out path scoring default_tz store =
      if is_empty (trim path)
      then of_rules (apply_scoring x scoring empty_rules)
      else (or_fail (out.read_rules path) unreadable >>= λ defs.
          of_rules (compile_with_tz x defs scoring default_tz store))

  -- the inline networks and the file, if one is named
  unfoldable pub load_list : Outside → List x.Net → Text → ℕ → Loaded (List (BlockEntry x))
  load_list out inline path now =
      if is_empty (trim path)
      then loaded (build_blocks x out.fail2ban inline none now)
      else (or_fail (out.read_text path) unreadable >>= λ text.
          loaded (build_blocks x out.fail2ban inline (some text) now))

  -- the loop of `fetch_blocklist_urls`: a feed that fails is left out
  unfoldable pub fetch_feeds : Outside → List Text → ℕ → List (BlockEntry x)
  fetch_feeds out [] now = []
  fetch_feeds out (url ∷ urls) now = elim (out.fetch url) [
    | none ↦ fetch_feeds out urls now
    | some text ↦ parse_blocklist x out.fail2ban text now ++ fetch_feeds out urls now
  ]

  unfoldable pub fetch_blocklist_urls : Outside → List Text → ℕ → List (BlockEntry x)
  unfolding fetch_feeds
  fetch_blocklist_urls out urls now = if out.client_ok then fetch_feeds out urls now else []

  -- what `Reloadable::apply` compiles before it stores anything
  unfoldable pub compile_all :
      Outside → Settings → ℕ → ℕ → Loaded (SignatureDb × RuleSet x × List (BlockEntry x))
  unfolding load_signatures load_rules load_list
  compile_all out cfg now store = load_signatures out cfg.signatures >>= λ sigs.
      or_fail (parse_tz_offset cfg.timezone) bad_timezone >>= λ tz.
      load_rules out cfg.rules cfg.scoring tz store >>= λ rules.
      load_list out cfg.reputation.allowlist cfg.reputation.allowlist_file now >>= λ allow.
      loaded (sigs, rules, allow)

  -- the stores of `apply`: all of them, or none
  abbrev pub store_all :
      Loaded (SignatureDb × RuleSet x × List (BlockEntry x)) → Shared → Shared × Option LoadError
  store_all (failed why) shared = (shared, some why)
  store_all (loaded (sigs, rules, allow)) shared =
      (record shared { signatures = sigs; rules = rules; allowlist = allow }, none)

  unfoldable pub apply : Outside → Settings → ℕ → ℕ → Shared → Shared × Option LoadError
  unfolding compile_all
  apply out cfg now store shared = store_all (compile_all out cfg now store) shared

  -- the store of `refresh_blocklist`, with the entries of the feeds
  abbrev pub store_blocks :
      Loaded (List (BlockEntry x)) → List (BlockEntry x) → Shared → Shared × Option LoadError
  store_blocks (failed why) feeds shared = (shared, some why)
  store_blocks (loaded blocks) feeds shared = (record shared { blocks = blocks ++ feeds }, none)

  unfoldable pub refresh_blocklist : Outside → Settings → ℕ → Shared → Shared × Option LoadError
  unfolding load_list fetch_blocklist_urls
  refresh_blocklist out cfg now shared =
      store_blocks (load_list out cfg.reputation.blocklist cfg.reputation.blocklist_file now)
        (if out.remote_blocklist
          then fetch_blocklist_urls out cfg.reputation.blocklist_urls now
          else [])
        shared

  -- `Reloadable::run_maintenance`, as far as the lists go
  unfoldable pub run_maintenance : ℕ → Shared → Shared
  run_maintenance now shared = record shared {
    blocks = prune_expired x shared.blocks now;
    allowlist = prune_expired x shared.allowlist now;
  }

  -- what `Pipeline::from_config` loads, in its order; the country database is left out
  unfoldable pub load_shared : Outside → Settings → ℕ → ℕ → Loaded Shared
  unfolding load_signatures load_rules load_list
  load_shared out cfg now store =
      load_list out cfg.reputation.blocklist cfg.reputation.blocklist_file now >>= λ blocks.
      load_signatures out cfg.signatures >>= λ sigs.
      or_fail (parse_tz_offset cfg.timezone) bad_timezone >>= λ tz.
      load_rules out cfg.rules cfg.scoring tz store >>= λ rules.
      load_list out cfg.reputation.allowlist cfg.reputation.allowlist_file now >>= λ allow.
      loaded (record { signatures = sigs; rules = rules; blocks = blocks; allowlist = allow })

  -- The supervisor: the configuration in force, what it shares, whether there is a refresh timer, and
  -- whether the loop has ended.
  pub record State : Type 0 where
    pub settings : Settings
    pub shared : Shared
    pub refresh : Bool
    pub stopped : Bool

  -- `run` up to the loop of `supervise`: the first refresh may fail
  unfoldable pub start : Outside → Settings → ℕ → ℕ → Loaded State
  unfolding load_shared refresh_blocklist
  start out cfg now store = load_shared out cfg now store >>= λ shared. loaded (record {
    settings = cfg;
    shared = (refresh_blocklist out cfg now shared).0;
    refresh = ltb 0 cfg.reputation.refresh_secs;
    stopped = false;
  })

  -- SIGHUP, with what `Config::load` gives
  unfoldable pub hangup : Outside → Option Settings → ℕ → ℕ → State → State
  unfolding apply refresh_blocklist
  hangup out none now store s = s
  hangup out (some cfg) now store s = record s {
    settings = cfg;
    shared = (refresh_blocklist out cfg now (apply out cfg now store s.shared).0).0;
  }

  unfoldable pub refresh_tick : Outside → ℕ → State → State
  unfolding refresh_blocklist
  refresh_tick out now s = record s { shared = (refresh_blocklist out s.settings now s.shared).0 }

  unfoldable pub maintenance_tick : ℕ → State → State
  unfolding run_maintenance
  maintenance_tick now s = record s { shared = run_maintenance now s.shared }

  unfoldable pub stop : State → State
  stop s = record s { stopped = true }
