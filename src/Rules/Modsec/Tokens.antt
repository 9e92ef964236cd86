-- ===== src/Rules/Modsec/Tokens.antt =====
-- crates/budu-rules/src/modsec.rs: the tokenizers, which read one character at a time.
use budu_waf.Prelude.{
  ℕ, Bool, true, false, ◌||◌, not, Option, none, some, List, [], ◌∷◌, ◌++◌, Text, lit, keep, map,
  is_empty, is_whitespace, ◌==◌, length, strip_prefix, strip_suffix, split, split_once, trim,
  trim_start, trim_matches, lines, unwrap_or, if◌then◌else◌,
}

-- `raw.strip_suffix('\r')`
abbrev drop_cr : Text → Text
drop_cr raw = unwrap_or (strip_suffix (13 ∷ []) raw) raw

-- The loop of `join_continuations`, with the logical line so far.
unfoldable pub join_from : Text → List Text → List Text
unfolding strip_suffix
join_from cur [] = if is_empty cur then [] else cur ∷ []
join_from cur (raw ∷ rest) = elim (strip_suffix (lit "\\") (drop_cr raw)) [
  | some prefix ↦ join_from (cur ++ (prefix ++ lit " ")) rest
  | none ↦ (cur ++ drop_cr raw) ∷ join_from [] rest
]

unfoldable pub join_continuations : Text → List Text
unfolding join_from
join_continuations input = join_from [] (lines input)

-- the rest of a line behind the directive and white space
unfoldable pub directive_arg : Text → Text → Option Text
directive_arg line name = elim (strip_prefix name line) [
  | none ↦ none
  | some rest ↦ if length rest == length (trim_start rest) then none else some (trim_start rest)
]

-- Where `tokenize` stands: between tokens, in a quoted one, behind a backslash in it, or in a bare one.
pub data Mode : Type 0 where
  between : Mode
  quoted escaped : (quote : ℕ) (tok : Text) → Mode
  bare : (tok : Text) → Mode

abbrev pub is_quote : ℕ → Bool
is_quote c = c == b'"' || c == 39

-- behind white space or a closing quote
abbrev pub begin : ℕ → Mode
begin c = if is_whitespace c then between else if is_quote c then quoted c [] else bare (c ∷ [])

-- what a backslash and the next character stand for
abbrev pub escape_of : ℕ → ℕ → Text
escape_of quote next = if next == quote then next ∷ [] else b'\\' ∷ next ∷ []

unfoldable pub tokens_from : Mode → Text → List Text
tokens_from between [] = []
tokens_from (quoted quote tok) [] = tok ∷ []
tokens_from (escaped quote tok) [] = (tok ++ (b'\\' ∷ [])) ∷ []
tokens_from (bare tok) [] = tok ∷ []
tokens_from between (c ∷ s) = tokens_from (begin c) s
tokens_from (quoted quote tok) (c ∷ s) = elim (c == b'\\') [
  | true ↦ tokens_from (escaped quote tok) s
  | false ↦ elim (c == quote) [
    | true ↦ tok ∷ tokens_from between s
    | false ↦ tokens_from (quoted quote (tok ++ (c ∷ []))) s
  ]
]
tokens_from (escaped quote tok) (c ∷ s) = tokens_from (quoted quote (tok ++ escape_of quote c)) s
tokens_from (bare tok) (c ∷ s) = elim (is_whitespace c) [
  | true ↦ tok ∷ tokens_from between s
  | false ↦ tokens_from (bare (tok ++ (c ∷ []))) s
]

unfoldable pub tokenize : Text → List Text
unfolding tokens_from
tokenize s = tokens_from between s

pub record RawVar : Type 0 where
  pub name : Text
  pub selector : Option Text
  pub count : Bool
  pub exclude : Bool

-- a variable behind its `&` or `!`
unfoldable pub raw_var : Bool → Bool → Text → RawVar
raw_var count exclude p = elim (split_once b':' p) [
  | some (n, sel) ↦ record {
    name = n;
    selector = some (trim_matches 39 sel);
    count = count;
    exclude = exclude;
  }
  | none ↦ record { name = p; selector = none; count = count; exclude = exclude }
]

unfoldable pub parse_var : Text → RawVar
unfolding raw_var
parse_var p = elim (strip_prefix (lit "&") p) [
  | some r ↦ raw_var true false r
  | none ↦ elim (strip_prefix (lit "!") p) [
    | some r ↦ raw_var false true r
    | none ↦ raw_var false false p
  ]
]

unfoldable pub parse_vars : Text → List RawVar
unfolding parse_var
parse_vars s =
    map (λ part. parse_var (trim part)) (keep (λ p. not (is_empty (trim p))) (split b'|' s))

-- `split_once(char::is_whitespace)`
unfoldable pub split_once_space : Text → Option (Text × Text)
split_once_space [] = none
split_once_space (c ∷ s) =
    let rest = split_once_space s in
    if is_whitespace c
    then some ([], s)
    else elim rest [ none ↦ none | some (a, b) ↦ some (c ∷ a, b) ]

-- an operator behind its `!`: the name and the argument
unfoldable pub operator_of : Text → Text × Text
unfolding split_once_space
operator_of s = elim (strip_prefix (lit "@") s) [
  | none ↦ (lit "rx", s)
  | some at ↦ elim (split_once_space at) [ some (n, a) ↦ (n, trim a) | none ↦ (at, []) ]
]

unfoldable pub parse_operator : Text → Text × Text × Bool
unfolding operator_of
parse_operator s = elim (strip_prefix (lit "!") (trim s)) [
  | some r ↦ ((operator_of (trim_start r)).0, (operator_of (trim_start r)).1, true)
  | none ↦ ((operator_of (trim s)).0, (operator_of (trim s)).1, false)
]

-- `push_action`, as what it adds
unfoldable pub action_of : Text → List (Text × Option Text)
action_of raw = if is_empty (trim raw) then [] else elim (split_once b':' (trim raw)) [
  | some (k, v) ↦ (trim k, some (trim_matches 39 (trim v))) ∷ []
  | none ↦ (trim raw, none) ∷ []
]

-- the loop of `split_actions`
unfoldable pub actions_from : Bool → Text → Text → List (Text × Option Text)
unfolding action_of
actions_from in_quote buf [] = action_of buf
actions_from in_quote buf (c ∷ s) = elim (c == 39) [
  | true ↦ actions_from (not in_quote) buf s
  | false ↦ elim (if c == b',' then not in_quote else false) [
    | true ↦ action_of buf ++ actions_from in_quote [] s
    | false ↦ actions_from in_quote (buf ++ (c ∷ [])) s
  ]
]

unfoldable pub split_actions : Text → List (Text × Option Text)
unfolding actions_from
split_actions s = actions_from false [] s
