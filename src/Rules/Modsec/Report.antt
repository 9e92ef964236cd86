-- ===== src/Rules/Modsec/Report.antt =====
-- crates/budu-rules/src/modsec.rs: the loops of `convert`, and what they report.
use budu_waf.Prelude.{
  ℕ, ◌+◌, Bool, true, Option, none, some, List, [], ◌∷◌, ◌++◌, Text, lit, is_empty, trim,
  starts_with, unwrap_or, if◌then◌else◌,
}
use budu_waf.Rules.Modsec.Tokens.{join_continuations, directive_arg}
use budu_waf.Rules.Modsec.Mapping.{Skip, Converted, skipped, done}
use budu_waf.Rules.Modsec.Convert.{EmittedRule, ParsedRule, parse_secrule, build_rules}

pub record Report : Type 0 where
  pub rules : List EmittedRule
  pub converted : ℕ
  pub notes : List (Text × Skip)
  pub warnings : List Text

abbrev pub empty_report : Report
empty_report = record { rules = []; converted = 0; notes = []; warnings = [] }

-- what the result of a rule adds
abbrev pub closed : ParsedRule → List Text → Converted (List EmittedRule) → Report → Report
closed starter warnings (skipped why) report = record report {
  notes = report.notes ++ ((unwrap_or starter.id (lit "?"), why) ∷ []);
  warnings = report.warnings ++ warnings;
}
closed starter warnings (done emitted) report = record report {
  rules = report.rules ++ emitted;
  converted = report.converted + 1;
  warnings = report.warnings ++ warnings;
}

-- the end of one rule
unfoldable pub close : ParsedRule → List ParsedRule → Report → Report
unfolding build_rules
close starter members report =
    closed starter (build_rules starter members).0 (build_rules starter members).1 report

-- Between rules, or in a chain that wants one more member.
pub data Pending : Type 0 where
  idle : Pending
  chained : (starter : ParsedRule) (members : List ParsedRule) → Pending

abbrev pub is_skipped : Text → Bool
is_skipped line = if is_empty line then true else starts_with line (lit "#")

unfoldable pub secrule_line : Text → Option (Converted ParsedRule)
secrule_line line = elim (directive_arg line (lit "SecRule")) [
  | none ↦ none
  | some rest ↦ some (parse_secrule rest)
]

-- what a parsed rule does: it ends the rule, or asks for a further member
unfoldable pub take_rule : ParsedRule → List ParsedRule → Bool → Report → Pending × Report
unfolding close
take_rule starter members chain report =
    if chain then (chained starter members, report) else (idle, close starter members report)

-- a line between rules
abbrev pub idle_line : Option (Converted ParsedRule) → Report → Pending × Report
idle_line none report = (idle, report)
idle_line (some (skipped why)) report =
    (idle, record report { notes = report.notes ++ ((lit "?", why) ∷ []) })
idle_line (some (done starter)) report = take_rule starter [] starter.chain report

-- a line in a chain: one that is no rule ends the chain, and is passed over
abbrev pub chain_line :
    Option (Converted ParsedRule) → ParsedRule → List ParsedRule → Report → Pending × Report
chain_line none starter members report = (idle, close starter members report)
chain_line (some (skipped why)) starter members report = (idle, close starter members report)
chain_line (some (done m)) starter members report =
    take_rule starter (members ++ (m ∷ [])) m.chain report

-- one line of the loops of `convert`
unfoldable pub convert_line : Text → Pending → Report → Pending × Report
unfolding take_rule secrule_line
convert_line line idle report =
    if is_skipped line then (idle, report) else idle_line (secrule_line line) report
convert_line line (chained starter members) report =
    if is_skipped line
    then (chained starter members, report)
    else chain_line (secrule_line line) starter members report

unfoldable pub convert_lines : List Text → Pending → Report → Report
unfolding convert_line close
convert_lines [] idle report = report
convert_lines [] (chained starter members) report = close starter members report
convert_lines (line ∷ rest) pending report =
    let (pending', report') = convert_line (trim line) pending report in
    convert_lines rest pending' report'

-- `convert`, with the rules in place of their TOML text
unfoldable pub convert : Text → Report
unfolding convert_lines
convert input = convert_lines (join_continuations input) idle empty_report
