-- ===== src/Rules/Modsec/Mapping.antt =====
-- crates/budu-rules/src/modsec.rs: variables, operators and transforms, as the names of the rule format.
-- A reason is a constructor in place of its message.
use budu_waf.Prelude.{
  ℕ, Bool, ◌||◌, not, Option, none, some, List, [], ◌∷◌, ◌++◌, Text, lit, any, keep, map, is_empty,
  ◌==◌, eq_text, split, split_whitespace, trim, to_upper, to_lower, contains, is_digit, starts_with,
  parse_unsigned, u32_max, if◌then◌else◌,
}
use budu_waf.Rules.Modsec.Tokens.{RawVar}

-- Why a rule is skipped.
pub data Skip : Type 0 where
  malformed macro_argument several_nets from_file unknown_operator no_targets several_variables :
      Skip
  response_phase : (phase : ℕ) → Skip

pub data Converted (A : Type 0) : Type 0 where
  skipped : Skip → Converted A
  done : A → Converted A

abbrev pub one_of : Text → List Text → Bool
one_of s names = any (λ n. eq_text s n) names

abbrev is_args : Text → Bool
is_args upper = one_of upper (lit "ARGS" ∷ lit "ARGS_GET" ∷ lit "ARGS_POST" ∷ [])

-- a field for a selector, and one for the whole collection
abbrev pub selected : Text → Text → Option Text → Text × Option Text
selected one all none = (all, none)
selected one all (some s) = (one, some s)

-- The second `match` of `map_var`, in two parts.
unfoldable pub late_var : Text → Option Text → Option (Text × Option Text)
late_var upper sel =
    if eq_text upper (lit "REQUEST_HEADERS")
    then some (selected (lit "header") (lit "headers") sel)
    else if eq_text upper (lit "REQUEST_HEADERS_NAMES")
    then some (lit "header_names", none)
    else if eq_text upper (lit "REQUEST_COOKIES")
    then some (selected (lit "cookie") (lit "cookies") sel)
    else if eq_text upper (lit "REQUEST_COOKIES_NAMES")
    then some (lit "cookie_names", none)
    else if eq_text upper (lit "REMOTE_ADDR")
    then some (lit "ip", none)
    else none

unfoldable pub plain_var : Text → Option Text → Option (Text × Option Text)
plain_var upper sel =
    if is_args upper || eq_text upper (lit "ARGS_COMBINED")
    then some (selected (lit "arg") (lit "args") sel)
    else if one_of upper (lit "ARGS_NAMES" ∷ lit "ARGS_GET_NAMES" ∷ lit "ARGS_POST_NAMES" ∷ [])
    then some (lit "arg_names", none)
    else if eq_text upper (lit "QUERY_STRING")
    then some (lit "query", none)
    else if one_of upper (lit "REQUEST_URI" ∷ lit "REQUEST_URI_RAW" ∷ [])
    then some (lit "uri", none)
    else if one_of upper (lit "REQUEST_FILENAME" ∷ lit "REQUEST_BASENAME" ∷ lit "PATH_INFO" ∷ [])
    then some (lit "path", none)
    else if eq_text upper (lit "REQUEST_METHOD")
    then some (lit "method", none)
    else if eq_text upper (lit "REQUEST_BODY")
    then some (lit "body", none)
    else late_var upper sel

-- a selector that is an expression is refused
unfoldable pub no_regex : Text × Option Text → Option (Text × Option Text)
no_regex (field, none) = some (field, none)
no_regex (field, some name) = if starts_with name (lit "/") then none else some (field, some name)

unfoldable pub map_var : RawVar → Option (Text × Option Text)
map_var v =
    if v.count
    then (if is_args (to_upper v.name) then some (lit "args_count", none) else none)
    else elim (plain_var (to_upper v.name) v.selector) [ none ↦ none | some r ↦ no_regex r ]

abbrev special : Text
special = lit "\\.+*?()|[]{}^$"

unfoldable pub regex_escape : Text → Text
regex_escape [] = []
regex_escape (c ∷ s) =
    (if any (λ d. d == c) special then b'\\' ∷ c ∷ [] else c ∷ []) ++ regex_escape s

-- `join("|")`
unfoldable pub alternatives : List Text → Text
alternatives [] = []
alternatives (a ∷ []) = a
alternatives (a ∷ b ∷ rest) = a ++ (b'|' ∷ alternatives (b ∷ rest))

unfoldable pub phrases_to_regex : Text → Text
unfolding regex_escape alternatives
phrases_to_regex arg =
    lit "(?i)("
    ++ (alternatives (keep (λ s. not (is_empty s)) (map regex_escape (split_whitespace arg)))
        ++ lit ")")

unfoldable pub ip_match : Text → Converted (Text × Option Text)
ip_match arg = elim (keep (λ s. not (is_empty s)) (map trim (split b',' arg))) [
  | [] ↦ skipped several_nets
  | one ∷ more ↦ elim more [ [] ↦ done (lit "cidr", some one) | b ∷ bs ↦ skipped several_nets ]
]

-- The `match` of `map_operator`, in three parts.
unfoldable pub late_operator : Text → Text → Converted (Text × Option Text)
late_operator name arg =
    if eq_text name (lit "detectSQLi")
    then done (lit "detect_sqli", none)
    else if eq_text name (lit "detectXSS")
    then done (lit "detect_xss", none)
    else if eq_text name (lit "pm")
    then done (lit "regex", some (phrases_to_regex arg))
    else if eq_text name (lit "ipMatch")
    then ip_match arg
    else if one_of name (lit "pmf" ∷ lit "pmFromFile" ∷ lit "ipMatchF" ∷ lit "ipMatchFromFile" ∷ [])
    then skipped from_file
    else skipped unknown_operator

unfoldable pub order_operator : Text → Text → Converted (Text × Option Text)
order_operator name arg =
    if eq_text name (lit "gt")
    then done (lit "gt", some arg)
    else if eq_text name (lit "lt")
    then done (lit "lt", some arg)
    else if eq_text name (lit "ge")
    then done (lit "ge", some arg)
    else if eq_text name (lit "le")
    then done (lit "le", some arg)
    else late_operator name arg

unfoldable pub plain_operator : Text → Text → Converted (Text × Option Text)
plain_operator name arg =
    if eq_text name (lit "rx")
    then done (lit "regex", some arg)
    else if eq_text name (lit "contains")
    then done (lit "contains", some arg)
    else if eq_text name (lit "beginsWith")
    then done (lit "starts_with", some arg)
    else if eq_text name (lit "endsWith")
    then done (lit "ends_with", some arg)
    else if one_of name (lit "streq" ∷ lit "eq" ∷ [])
    then done (lit "eq", some arg)
    else order_operator name arg

-- `map_operator`, and the warning that it gives
unfoldable pub map_operator : Text → Text → Converted (Text × Option Text)
map_operator name arg =
    if contains arg (lit "%{") then skipped macro_argument else plain_operator name arg

unfoldable pub operator_warnings : Text → Text → List Text
operator_warnings name arg =
    if contains arg (lit "%{")
    then []
    else if one_of name (lit "detectSQLi" ∷ lit "detectXSS" ∷ [])
    then name ∷ []
    else []

pub data Transform : Type 0 where
  keeps : Text → Transform
  clears unsupported : Transform

unfoldable pub map_transform : Text → Transform
map_transform text =
    let t = trim text in
    if eq_text t (lit "none")
    then clears
    else if eq_text t (lit "lowercase")
    then keeps (lit "lowercase")
    else if eq_text t (lit "uppercase")
    then keeps (lit "uppercase")
    else if one_of t (lit "urlDecode" ∷ lit "urlDecodeUni" ∷ [])
    then keeps (lit "url_decode")
    else if eq_text t (lit "compressWhitespace")
    then keeps (lit "compress_ws")
    else if eq_text t (lit "removeNulls")
    then keeps (lit "remove_nulls")
    else if one_of t (lit "trim" ∷ lit "trimLeft" ∷ lit "trimRight" ∷ [])
    then keeps (lit "trim")
    else unsupported

-- the text from the last `+`
unfoldable pub from_last_plus : Text → Option Text
from_last_plus [] = none
from_last_plus (c ∷ s) =
    let later = from_last_plus s in
    elim later [ some t ↦ some t | none ↦ if c == b'+' then some (c ∷ s) else none ]

-- the amount of a literal increment, or the default
unfoldable pub literal_score : Text → ℕ
unfolding from_last_plus
literal_score setvar = elim (from_last_plus setvar) [
  | none ↦ 5
  | some t ↦ elim (parse_unsigned u32_max (keep is_digit t)) [ some n ↦ n | none ↦ 5 ]
]

unfoldable pub anomaly_score : Text → Option ℕ
unfolding literal_score
anomaly_score setvar =
    let lower = to_lower setvar in
    if not (contains lower (lit "anomaly_score"))
    then none
    else if contains lower (lit "critical_anomaly_score")
    then some 5
    else if contains lower (lit "error_anomaly_score")
    then some 4
    else if contains lower (lit "warning_anomaly_score")
    then some 3
    else if contains lower (lit "notice_anomaly_score")
    then some 2
    else some (literal_score setvar)
