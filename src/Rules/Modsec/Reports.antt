-- ===== src/Rules/Modsec/Reports.antt =====
-- crates/budu-rules/src/modsec.rs: what holds of the report, line by line.
use budu_waf.Prelude.{
  Bool, true, false, Option, none, some, List, [], ◌∷◌, ◌++◌, Text, lit, All, All-append, if_elim,
  leb, trim,
}
use budu_waf.Rules.Modsec.Tokens.{directive_arg, join_continuations}
use budu_waf.Rules.Modsec.Mapping.{Converted, skipped, done}
use budu_waf.Rules.Modsec.Convert.{
  EmittedCond, EmittedRule, ParsedRule, parse_secrule, member_conditions, id_base, emit,
  chain_conditions, rules_of, build_rules,
}
use budu_waf.Rules.Modsec.Report.{
  Report, empty_report, close, Pending, idle, chained, secrule_line, take_rule, closed, is_skipped,
  idle_line, chain_line, convert_line, convert_lines, convert,
}
use budu_waf.Rules.Modsec.Emitted.{
  KnownRule, KnownTransforms, IfDone, not_done, is_done, SomeConds, some_conds,
  parse_secrule-KnownTransforms,
}
use budu_waf.Rules.Modsec.Members.{
  SomeGroups, some_groups, Rules, rules, emit-KnownRule, emit_each-KnownRule,
  chain_conditions-SomeConds, member_conditions-SomeGroups,
}

chain-Rules :
    (starter : ParsedRule) (r : Converted (List EmittedCond))
    → IfDone SomeConds r
    → IfDone Rules (elim r [
      | skipped why ↦ skipped why
      | done when ↦ done (emit starter (id_base starter) when ∷ [])
    ])
chain-Rules starter r not_done = not_done
chain-Rules starter r (is_done h) =
    is_done (rules _ (emit-KnownRule starter (id_base starter) _ h, tt))

-- the groups of at least one member
rules_of-Rules :
    (starter : ParsedRule) (css : List (List EmittedCond))
    → SomeGroups css
    → IfDone Rules (rules_of starter css)
unfolding rules_of
rules_of-Rules starter _ (some_groups cs [] (some_conds _ _ k ks) _) =
    is_done (rules _ (emit_each-KnownRule starter _ cs 0 (k, ks)))
rules_of-Rules starter _ (some_groups cs (more ∷ css) h hs) =
    chain-Rules starter (chain_conditions (cs ∷ more ∷ css))
      (chain_conditions-SomeConds cs (more ∷ css) (h, hs))

groups-Rules :
    (starter : ParsedRule) (r : Converted (List (List EmittedCond)))
    → IfDone SomeGroups r
    → IfDone Rules (elim r [ skipped why ↦ skipped why | done css ↦ rules_of starter css ])
groups-Rules starter r not_done = not_done
groups-Rules starter r (is_done h) = rules_of-Rules starter _ h

build_rules-Rules :
    (starter : ParsedRule) (members : List ParsedRule)
    → All KnownTransforms (starter ∷ members)
    → IfDone Rules (build_rules starter members).1
unfolding build_rules
build_rules-Rules starter members h =
    if_elim (λ (r : List Text × Converted (List EmittedRule)). IfDone Rules r.1)
      (leb 3 starter.phase) not_done
      (groups-Rules starter (member_conditions (starter ∷ members)).1
        (member_conditions-SomeGroups starter members h))

pub record KnownReport (r : Report) : Type 0 where
  pub all_known : All KnownRule r.rules

-- the end of a rule, by its result
closed-KnownReport :
    (starter : ParsedRule) (report : Report) (warnings : List Text)
    (r : Converted (List EmittedRule))
    → KnownReport report
    → IfDone Rules r
    → KnownReport (closed starter warnings r report)
closed-KnownReport starter report warnings r h not_done = record { all_known = h.all_known }
closed-KnownReport starter report warnings r h (is_done (rules rs k)) = record {
  all_known = All-append KnownRule report.rules rs h.all_known k;
}

close-KnownReport :
    (starter : ParsedRule) (members : List ParsedRule) (report : Report)
    → All KnownTransforms (starter ∷ members)
    → KnownReport report
    → KnownReport (close starter members report)
unfolding close
close-KnownReport starter members report h k =
    closed-KnownReport starter report (build_rules starter members).0
      (build_rules starter members).1 k (build_rules-Rules starter members h)

-- the members of an open chain
data KnownPending : Pending → Type 0 where
  nothing_open : KnownPending idle
  open_chain :
      (starter : ParsedRule) (members : List ParsedRule)
      → KnownTransforms starter
      → All KnownTransforms members
      → KnownPending (chained starter members)

record KnownState (s : Pending × Report) : Type 0 where
  pub pending : KnownPending s.0
  pub report : KnownReport s.1

take_rule-KnownState :
    (starter : ParsedRule) (members : List ParsedRule) (chain : Bool) (report : Report)
    → KnownTransforms starter
    → All KnownTransforms members
    → KnownReport report
    → KnownState (take_rule starter members chain report)
unfolding take_rule
take_rule-KnownState starter members true report h hs k = record {
  pending = open_chain starter members h hs;
  report = k;
}
take_rule-KnownState starter members false report h hs k = record {
  pending = nothing_open;
  report = close-KnownReport starter members report (h, hs) k;
}

-- a line that reads as a rule, or not
data KnownLine : Option (Converted ParsedRule) → Type 0 where
  no_rule : KnownLine none
  rule_line : {r : Converted ParsedRule} → IfDone KnownTransforms r → KnownLine (some r)

secrule_line-KnownLine : (line : Text) → KnownLine (secrule_line line)
unfolding secrule_line
secrule_line-KnownLine line = of_arg (directive_arg line (lit "SecRule"))
  where
    of_arg :
        (o : Option Text)
        → KnownLine (elim o [ none ↦ none | some rest ↦ some (parse_secrule rest) ])
    of_arg none = no_rule
    of_arg (some rest) = rule_line (parse_secrule-KnownTransforms rest)

idle_line-KnownState :
    (r : Option (Converted ParsedRule)) (report : Report)
    → KnownLine r
    → KnownReport report
    → KnownState (idle_line r report)
idle_line-KnownState r report no_rule k = record { pending = nothing_open; report = k }
idle_line-KnownState r report (rule_line not_done) k = record {
  pending = nothing_open;
  report = record { all_known = k.all_known };
}
idle_line-KnownState r report (rule_line (is_done {a = starter} h)) k =
    take_rule-KnownState starter [] starter.chain report h tt k

chain_line-KnownState :
    (r : Option (Converted ParsedRule)) (starter : ParsedRule) (members : List ParsedRule)
    (report : Report)
    → KnownLine r
    → KnownTransforms starter
    → All KnownTransforms members
    → KnownReport report
    → KnownState (chain_line r starter members report)
chain_line-KnownState r starter members report no_rule h hs k = record {
  pending = nothing_open;
  report = close-KnownReport starter members report (h, hs) k;
}
chain_line-KnownState r starter members report (rule_line not_done) h hs k = record {
  pending = nothing_open;
  report = close-KnownReport starter members report (h, hs) k;
}
chain_line-KnownState r starter members report (rule_line (is_done {a = m} hm)) h hs k =
    take_rule-KnownState starter (members ++ (m ∷ [])) m.chain report h
      (All-append KnownTransforms members _ hs (hm, tt)) k

convert_line-KnownState :
    (line : Text) (pending : Pending) (report : Report)
    → KnownPending pending
    → KnownReport report
    → KnownState (convert_line line pending report)
unfolding convert_line
convert_line-KnownState line pending report nothing_open k =
    if_elim KnownState (is_skipped line) (record { pending = nothing_open; report = k })
      (idle_line-KnownState (secrule_line line) report (secrule_line-KnownLine line) k)
convert_line-KnownState line pending report (open_chain starter members h hs) k =
    if_elim KnownState (is_skipped line)
      (record { pending = open_chain starter members h hs; report = k })
      (chain_line-KnownState (secrule_line line) starter members report
        (secrule_line-KnownLine line) h hs k)

convert_lines-KnownReport :
    (ls : List Text) (pending : Pending) (report : Report)
    → KnownPending pending
    → KnownReport report
    → KnownReport (convert_lines ls pending report)
unfolding convert_lines
convert_lines-KnownReport [] pending report nothing_open k = k
convert_lines-KnownReport [] pending report (open_chain starter members h hs) k =
    close-KnownReport starter members report (h, hs) k
convert_lines-KnownReport (line ∷ rest) pending report p k =
    let step = convert_line-KnownState (trim line) pending report p k in
    convert_lines-KnownReport rest _ _ step.pending step.report

pub convert-KnownReport : (input : Text) → KnownReport (convert input)
unfolding convert
convert-KnownReport input =
    convert_lines-KnownReport (join_continuations input) idle empty_report nothing_open
      (record { all_known = tt })
