-- ===== src/Rules/Args/Flatten.antt =====
-- crates/budu-rules/src/ruleset.rs: a JSON body as pairs of a dotted path and a value.
use budu_waf.Prelude.{
  ℕ, ◌+◌, true, false, none, some, List, [], ◌∷◌, ◌++◌, Text, Bytes, lit, show_ℕ, is_empty,
  if◌then◌else◌,
}
use budu_waf.External.{Externals}
use budu_waf.Json.{
  Json, Items, Members, null, bool, number, string, array, object, nil, cons, end, member,
}

unfoldable pub child : Text → Text → Text
child prefix key = if is_empty prefix then key else prefix ++ (b'.' ∷ key)

-- what `flatten_json` appends
unfoldable mutual
  pub flatten_json : Text → Json → List (Text × Text)
  flatten_json prefix null = (prefix, []) ∷ []
  flatten_json prefix (bool true) = (prefix, lit "true") ∷ []
  flatten_json prefix (bool false) = (prefix, lit "false") ∷ []
  flatten_json prefix (number n) = (prefix, n) ∷ []
  flatten_json prefix (string s) = (prefix, s) ∷ []
  flatten_json prefix (array items) = flatten_items prefix 0 items
  flatten_json prefix (object map) = flatten_members prefix map

  pub flatten_items : Text → ℕ → Items → List (Text × Text)
  flatten_items prefix i nil = []
  flatten_items prefix i (cons v rest) =
      flatten_json (child prefix (show_ℕ i)) v ++ flatten_items prefix (i + 1) rest

  pub flatten_members : Text → Members → List (Text × Text)
  flatten_members prefix end = []
  flatten_members prefix (member k v rest) =
      flatten_json (child prefix k) v ++ flatten_members prefix rest

unfoldable pub parse_json_args : Externals → Bytes → List (Text × Text)
parse_json_args x bytes = elim (x.parse_json bytes) [
  | none ↦ []
  | some value ↦ flatten_json [] value
]
