-- ===== src/Rules/Args/Multipart.antt =====
-- crates/budu-rules/src/ruleset.rs: multipart/form-data bodies.
pub mod Pieces
use budu_waf.Prelude.{
  ℕ, zero, suc, ◌+◌, ◌-◌, Bool, true, false, ◌||◌, Option, none, some, List, [], ◌∷◌, Text, Bytes,
  lit, as_bytes, split, split_once, trim, trim_matches, to_lower, eq_text, starts_with,
  strip_prefix, strip_suffix, take, drop, length, is_empty, push_head, unwrap_or, ◌>>=◌,
  if◌then◌else◌,
}
use budu_waf.External.{Externals}

-- The scan of `split_on`, with the number of bytes of a match still to be passed over.
unfoldable pub split_from : Bytes → ℕ → Bytes → List Bytes
split_from needle skip [] = [] ∷ []
split_from needle (suc skip) (b ∷ rest) = split_from needle skip rest
split_from needle zero (b ∷ rest) = elim (starts_with (b ∷ rest) needle) [
  | true ↦ [] ∷ split_from needle (length needle - 1) rest
  | false ↦ push_head b (split_from needle zero rest)
]

unfoldable pub split_on : Bytes → Bytes → List Bytes
split_on haystack needle = if is_empty needle then haystack ∷ [] else split_from needle 0 haystack

unfoldable pub find_from : Bytes → Bytes → Option ℕ
find_from [] needle = none
find_from (b ∷ rest) needle =
    let later = find_from rest needle in
    if starts_with (b ∷ rest) needle then some 0 else later >>= λ i. some (i + 1)

unfoldable pub find_sub : Bytes → Bytes → Option ℕ
find_sub haystack needle = if is_empty needle then none else find_from haystack needle

abbrev eq_ignore_case : Text → Text → Bool
eq_ignore_case a b = eq_text (to_lower a) (to_lower b)

-- The loop of `extract_boundary`; the `?` on a parameter without `=` ends the function.
unfoldable pub boundary_in : List Text → Option Text
boundary_in [] = none
boundary_in (part ∷ rest) =
    let later = boundary_in rest in
    split_once b'=' (trim part) >>= λ p.
    if eq_ignore_case (trim p.0) (lit "boundary")
    then some (trim_matches b'"' (trim p.1))
    else later

unfoldable pub extract_boundary : Text → Option Text
extract_boundary content_type = boundary_in (drop 1 (split b';' content_type))

-- The parameters of a Content-Disposition line: the last `name=` and the last `filename=`.
unfoldable pub params_of : List Text → Option Text → Option Text → Option (Text × Option Text)
params_of [] name filename = name >>= λ n. some (n, filename)
params_of (param ∷ rest) name filename =
    let n = strip_prefix (lit "name=") (trim param) in
    let f = strip_prefix (lit "filename=") (trim param) in
    params_of rest (elim n [ some r ↦ some (trim_matches b'"' r) | none ↦ name ])
      (elim n [
        | some r ↦ filename
        | none ↦ elim f [ some r ↦ some (trim_matches b'"' r) | none ↦ filename ]
      ])

-- The loop of `disposition_fields`; a line without `:` ends the function.
unfoldable pub disposition_in : List Text → Option (Text × Option Text)
disposition_in [] = none
disposition_in (line ∷ rest) =
    let later = disposition_in rest in
    split_once b':' line >>= λ p.
    if eq_ignore_case (trim p.0) (lit "content-disposition")
    then params_of (drop 1 (split b';' p.1)) none none
    else later

module _ (x : Externals) where
  unfoldable pub disposition_fields : Bytes → Option (Text × Option Text)
  disposition_fields head = disposition_in (split_on (x.utf8_lossy head) (13 ∷ 10 ∷ []))

  -- one part behind its header block
  unfoldable pub part_arg : Bytes → Bytes → Option (Text × Text)
  part_arg head val = disposition_fields head >>= λ d. some (
    d.0,
    elim d.1 [ some f ↦ f | none ↦ x.utf8_lossy (unwrap_or (strip_suffix (13 ∷ 10 ∷ []) val) val) ],
  )

  -- one segment between separators
  unfoldable pub segment_arg : Bytes → Option (Text × Text)
  segment_arg raw =
      let seg = unwrap_or (strip_prefix (13 ∷ 10 ∷ []) raw) raw in
      if is_empty seg || starts_with seg (lit "--")
      then none
      else (find_sub seg (13 ∷ 10 ∷ 13 ∷ 10 ∷ []) >>= λ i. part_arg (take i seg) (drop (i + 4) seg))

  unfoldable pub segments_args : List Bytes → List (Text × Text)
  segments_args [] = []
  segments_args (seg ∷ rest) = elim (segment_arg seg) [
    | none ↦ segments_args rest
    | some a ↦ a ∷ segments_args rest
  ]

  -- what `parse_multipart_args` appends
  unfoldable pub parse_multipart_args : Bytes → Text → List (Text × Text)
  parse_multipart_args body content_type = elim (extract_boundary content_type) [
    | none ↦ []
    | some boundary ↦ segments_args (split_on body (b'-' ∷ b'-' ∷ as_bytes boundary))
  ]
