-- ===== src/Rules/Args.antt =====
-- crates/budu-rules/src/ruleset.rs: the parameters and cookies of a request.
pub mod Multipart
pub mod Flatten
use budu_waf.Prelude.{
  true, ◌||◌, Option, none, some, List, [], ◌∷◌, ◌++◌, Text, Bytes, lit, as_bytes, split,
  split_once, trim, to_lower, starts_with, ends_with, is_empty, unwrap_or, ◌>>=◌, if◌then◌else◌,
}
use budu_waf.Common.{RequestCtx, BodyState, not_buffered, buffered, too_large}
use budu_waf.External.{Externals}
use budu_waf.Parser.{decode_into}
use budu_waf.Rules.Args.Multipart.{parse_multipart_args}
use budu_waf.Rules.Args.Flatten.{parse_json_args}

-- `pair.split_once('=').unwrap_or((pair, ""))`
unfoldable pub key_value : Text → Text × Text
key_value pair = unwrap_or (split_once b'=' pair) (pair, [])

unfoldable pub parse_pair : Text → Text × Text
parse_pair pair =
    let (k, v) = key_value pair in
    (decode_into (as_bytes k) true [], decode_into (as_bytes v) true [])

unfoldable pub pairs_of : List Text → List (Text × Text)
pairs_of [] = []
pairs_of (pair ∷ rest) = if is_empty pair then pairs_of rest else parse_pair pair ∷ pairs_of rest

-- what `parse_pairs` appends
unfoldable pub parse_pairs : Text → List (Text × Text)
parse_pairs s = pairs_of (split b'&' s)

unfoldable pub cookies_of : List Text → List (Text × Text)
cookies_of [] = []
cookies_of (part ∷ rest) =
    let (k, v) = key_value (trim part) in
    if is_empty (trim part) then cookies_of rest else (trim k, trim v) ∷ cookies_of rest

module _ (x : Externals) where
  -- `headers.get(name).and_then(|v| v.to_str().ok())`
  unfoldable pub header_str : x.Headers → Text → Option Text
  header_str h name = x.get h name >>= x.to_str

  unfoldable pub body_args : Text → Bytes → List (Text × Text)
  body_args ct b =
      let ctl = to_lower ct in
      if starts_with ctl (lit "application/x-www-form-urlencoded")
      then parse_pairs (x.utf8_lossy b)
      else if starts_with ctl (lit "application/json")
          || starts_with ctl (lit "text/json")
          || ends_with ctl (lit "+json")
      then parse_json_args x b
      else if starts_with ctl (lit "multipart/form-data")
      then parse_multipart_args x b ct
      else []

  abbrev buffered_args : BodyState → Option Text → List (Text × Text)
  buffered_args (buffered b) (some ct) = body_args ct b
  buffered_args (buffered b) none = []
  buffered_args not_buffered _ = []
  buffered_args too_large _ = []

  unfoldable pub collect_args : RequestCtx x.Headers → List (Text × Text)
  collect_args ctx =
      (elim ctx.query [ none ↦ [] | some q ↦ parse_pairs q ])
      ++ buffered_args ctx.body (header_str ctx.headers (lit "content-type"))

  unfoldable pub collect_cookies : RequestCtx x.Headers → List (Text × Text)
  collect_cookies ctx = elim (header_str ctx.headers (lit "cookie")) [
    | none ↦ []
    | some cookie ↦ cookies_of (split b';' cookie)
  ]
