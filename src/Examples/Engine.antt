-- ===== src/Examples/Engine.antt =====
-- Theorems on rules, lists of addresses, signatures and counters, at values.
use mathlib.Core.Bool.{xor}
use mathlib.Core.List.{Memᴰ}
use budu_waf.Prelude.{
  ℕ, ◌≤◌, ◌<◌, ◌≡◌, ◌&&◌, ◌⊎◌, refl, true, false, some, none, List, [], ◌∷◌, Text, lit, All, arith,
  pos, ltb, leb, u32_max, saturating_add, if◌then◌else◌,
}
use budu_waf.Common.{RequestCtx, ResponseCtx, not_buffered, buffered, v4}
use budu_waf.RateLimit.{get_counter}
use budu_waf.RateLimit.Counters.{Call, IsRecent, total, after, after-total}
use budu_waf.Reputation.{BlockEntry, active, contains, prune_expired, parse_blocklist}
use budu_waf.Reputation
use budu_waf.Reputation.Prune.{prune_expired_safe, parse_blocklist-active}
use budu_waf.Signatures.{
  Signature, SignatureDb, ok, add_signatures, add_signature, add_pattern, finish, compile, scan,
  meta_of,
}
use budu_waf.Signatures.Hits.{Matches, scan_sound}
use budu_waf.Rules.Model.{Field, Op, CompiledRule, Action, RuleSet, blocked}
use budu_waf.Rules.Match.{
  all_request, matches_request, eval_candidates, collect_candidates, eval_op, apply_transforms,
}
use budu_waf.Rules.Eval.{
  World, step, is_resp_body, act, run_rules, evaluate_inner, anomaly_reason, evaluate_response,
  needs_response_body,
}
use budu_waf.Rules.Eval.Spec.{Decides, evaluate_inner-Decides, evaluate_inner_cases}
use budu_waf.Rules.Eval.Scoring.{matched_points, anomaly_exact}
use budu_waf.Rules.Eval.Response.{needs_response_body_sound}
use budu_waf.Rules.Compile.{
  RuleDef, ScoringConfig, PhaseKind, ActionKind, compile_with_tz, compile_loop, compile_rule,
  check_nonempty, check_phases, check_phase, is_response_field, check_action, compile_action,
  apply_scoring, add_rule,
}
use budu_waf.Rules.Condition.{
  CondDef, compile_cond, compile_field, compile_op, check_field_op, is_time, is_day,
  compile_transform,
}
use budu_waf.Rules.Compile.Sound.{CompiledFits, compile_with_tz-Fits}
use budu_waf.Rules.Error
use budu_waf.Examples.Toy.{toy, Map, toy-AutomataLaws, toy-CacheLaws, toy-PrinterLaws}

abbrev request : RequestCtx Map
request = record {
  method = lit "GET";
  path = lit "/a";
  query = none;
  headers = [];
  client = record { ip = v4 7; geo = none };
  body = not_buffered;
  normalized = record { path = none; query = none; scratch = [] };
}

abbrev world : World toy
world = record { counters = []; buckets = λ store. 3; log_hits = 0 }

-- a rule on the method
abbrev rule : Text → Text → Action → CompiledRule toy
rule id method action = record {
  id = id;
  action = action;
  conds = record { field = Field.method; op = Op.eq method; negate = false; transforms = [] } ∷ [];
}

abbrev rule_set : ℕ → List (CompiledRule toy) → List (CompiledRule toy) → RuleSet toy
rule_set threshold rules response_rules = record {
  rules = rules;
  response_rules = response_rules;
  threshold = threshold;
  anomaly_status = 403;
  anomaly_msg = lit "too odd";
}

abbrev scorer : CompiledRule toy
scorer = rule (lit "s") (lit "GET") (Action.score 5)

abbrev blocker : CompiledRule toy
blocker = rule (lit "b") (lit "GET") (Action.block 403 (lit "no"))

undecided_score : run_rules toy (scorer ∷ []) request true 9 0 world ≡ (none, 5, world)
unfolding run_rules step all_request matches_request xor eval_candidates collect_candidates eval_op
    apply_transforms act
undecided_score = refl

decides :
    Decides toy request true 9
      (scorer ∷ blocker ∷ [])
      0
      world
      (blocked (lit "b") 403 (lit "no"))
      5
      world
unfolding run_rules all_request matches_request xor eval_candidates collect_candidates eval_op
    apply_transforms act
decides = record {
  front = scorer ∷ [];
  rule = blocker;
  back = [];
  score = 5;
  state = world;
  listed = refl;
  undecided = undecided_score;
  holds = refl;
  acts = refl;
}

evaluate_inner-Decides_example :
    evaluate_inner toy (rule_set 4 (scorer ∷ blocker ∷ []) []) request true 9 world
    ≡ (some (blocked (lit "b") 403 (lit "no")), world)
evaluate_inner-Decides_example =
    evaluate_inner-Decides toy request true 9 (rule_set 4 (scorer ∷ blocker ∷ []) []) world
      (blocked (lit "b") 403 (lit "no")) 5 world decides

evaluate_inner_cases_example :
    ((total : ℕ) × Decides toy request true 9
        (scorer ∷ blocker ∷ [])
        0
        world
        (blocked (lit "b") 403 (lit "no"))
        total
        world)
    ⊎ ((total : ℕ) × (run_rules toy (scorer ∷ blocker ∷ []) request true 9 0 world
          ≡ (none, total, world))
        × (0 < 4)
        × (4 ≤ total)
        × (blocked (lit "b") 403 (lit "no")
            ≡ blocked
                (lit "anomaly.score")
                403
                (anomaly_reason toy (rule_set 4 (scorer ∷ blocker ∷ []) []) total)))
evaluate_inner_cases_example =
    evaluate_inner_cases toy request true 9 (rule_set 4 (scorer ∷ blocker ∷ []) []) world
      (blocked (lit "b") 403 (lit "no")) world evaluate_inner-Decides_example

anomaly_exact_example :
    (evaluate_inner toy (rule_set 4 (scorer ∷ []) []) request true 9 world ≡ (
      if ltb 0 4 && leb 4 (matched_points toy request true 9 (scorer ∷ []) 0 world)
          then some (
              blocked
                (lit "anomaly.score")
                403
                (anomaly_reason toy (rule_set 4 (scorer ∷ []) []) 5))
          else none,
      world,
    ))
    × (5 ≡ saturating_add u32_max 0 (matched_points toy request true 9 (scorer ∷ []) 0 world))
anomaly_exact_example =
    anomaly_exact toy request true 9 (rule_set 4 (scorer ∷ []) []) world 5 world (omega arith)
      undecided_score

abbrev reply : ResponseCtx Map
reply = record {
  status = 200;
  headers = [];
  client = record { ip = v4 7; geo = none };
  path = lit "/a";
  body = not_buffered;
}

needs_response_body_sound_example :
    evaluate_response toy
      (rule_set 0 [] (blocker ∷ []))
      (record reply { body = buffered (lit "x") })
      9
      world
    ≡ evaluate_response toy (rule_set 0 [] (blocker ∷ [])) reply 9 world
unfolding needs_response_body is_resp_body
needs_response_body_sound_example =
    needs_response_body_sound toy reply (buffered (lit "x")) 9 (rule_set 0 [] (blocker ∷ [])) world
      refl

abbrev condition : CondDef
condition = record {
  field = lit "method";
  name = [];
  op = lit "eq";
  value = lit "GET";
  values = [];
  negate = false;
  transform = [];
  tz = [];
}

abbrev definition : RuleDef
definition = record {
  id = lit "b";
  phase = PhaseKind.request;
  action = ActionKind.block;
  status = 403;
  msg = lit "no";
  rps = 0;
  burst = 0;
  ttl_secs = 60;
  score = 0;
  counter = [];
  incr = 1;
  when = condition ∷ [];
}

abbrev scoring : ScoringConfig
scoring = record { threshold = 4; status = 403; msg = lit "too odd" }

compiled :
    compile_with_tz toy (definition ∷ []) scoring (pos 0) 0
    ≡ Error.ok (rule_set 4 (blocker ∷ []) [])
unfolding compile_with_tz compile_loop compile_rule Error.collect compile_cond compile_field
    compile_op check_field_op is_time is_day check_nonempty check_phases check_phase
    is_response_field check_action compile_action apply_scoring add_rule compile_transform
compiled = refl

compile_with_tz-Fits_example :
    CompiledFits toy 1 (blocker ∷ []) []
    × ((rule_set 4 (blocker ∷ []) []).threshold ≡ scoring.threshold)
    × ((rule_set 4 (blocker ∷ []) []).anomaly_status ≡ scoring.status)
    × (toy.status_ok 403 ≡ true)
compile_with_tz-Fits_example =
    compile_with_tz-Fits toy (definition ∷ []) scoring (pos 0) 0 (rule_set 4 (blocker ∷ []) [])
      compiled

abbrev bans : List (BlockEntry toy)
bans = record { net = v4 7; until = some 10 } ∷ record { net = v4 8; until = none } ∷ []

prune_expired_safe_example :
    (Reputation.contains toy (prune_expired toy bans 12) (v4 8) 20
      ≡ Reputation.contains toy bans (v4 8) 20)
    × All (λ e. active toy e 12 ≡ true) (prune_expired toy bans 12)
prune_expired_safe_example = prune_expired_safe toy bans (v4 8) 12 20 (omega arith)

parse_blocklist-active_example :
    All
      (λ e. active toy e 9 ≡ true)
      (parse_blocklist toy true (lit "4Z until=12\n4Y until=3 # old") 9)
    × (prune_expired toy (parse_blocklist toy true (lit "4Z until=12\n4Y until=3 # old") 9) 9
        ≡ parse_blocklist toy true (lit "4Z until=12\n4Y until=3 # old") 9)
parse_blocklist-active_example =
    parse_blocklist-active toy true (lit "4Z until=12\n4Y until=3 # old") 9

abbrev evil : Signature
evil = record {
  id = lit "s1";
  literal = some (lit "EVIL");
  regex = none;
  status = 403;
  reason = [];
}

abbrev evil_db : SignatureDb
evil_db = record {
  literals = lit "evil" ∷ [];
  literal_meta = record { rule_id = lit "s1"; status = 403; reason = lit "s1" } ∷ [];
  regexes = [];
  regex_meta = [];
  count = 1;
}

evil_compiles : compile toy (evil ∷ []) ≡ ok evil_db
unfolding compile add_signatures add_signature add_pattern finish meta_of
evil_compiles = refl

scan_sound_example :
    ((toy.find_literal evil_db.literals (lit "/an evil one") ≡ none)
      × (toy.regex_set_matches evil_db.regexes (lit "/an evil one") ≡ [])
      × (scan toy evil_db (lit "/an evil one") ≡ none))
    ⊎ ((s : Signature) × Memᴰ s (evil ∷ [])
        × Matches toy s (lit "/an evil one")
        × (scan toy evil_db (lit "/an evil one") ≡ some (meta_of s)))
scan_sound_example =
    scan_sound toy toy-AutomataLaws (evil ∷ []) evil_db (lit "/an evil one") evil_compiles

-- two calls for one counter, one for another between them, the last one first
abbrev calls : List Call
calls =
    record { name = lit "login"; ip = v4 7; amount = 3; window_secs = 60; at = 130 }
    ∷ record { name = lit "login"; ip = v4 8; amount = 9; window_secs = 10; at = 110 }
    ∷ record { name = lit "login"; ip = v4 7; amount = 2; window_secs = 60; at = 100 }
    ∷ []

calls-IsRecent : All (IsRecent (lit "login") (v4 7) 150) calls
calls-IsRecent = (
  record { past = omega arith; within = refl },
  (
    record { past = omega arith; within = refl },
    (record { past = omega arith; within = refl }, tt),
  ),
)

after-total_example :
    get_counter toy (after toy toy-PrinterLaws calls) (lit "login") (v4 7) 150
    ≡ total (lit "login") (v4 7) calls
after-total_example =
    after-total toy toy-PrinterLaws toy-CacheLaws calls (lit "login") (v4 7) 150 (omega arith)
      calls-IsRecent 150 (omega arith)
