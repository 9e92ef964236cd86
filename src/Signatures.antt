-- ===== src/Signatures.antt =====
-- crates/budu-signatures: compiling signatures and scanning a request for them. The two automata are
-- the lists of their patterns, searched by the operations of External.antt.
pub mod Builtin
pub mod Hits
use budu_waf.Prelude.{
  ℕ, ◌+◌, true, false, ◌&&◌, Option, none, some, List, [], ◌∷◌, ◌++◌, Text, as_bytes, is_empty,
  to_lower, get_elem?, length, if◌then◌else◌,
}
use budu_waf.Common.{
  RequestCtx, BodyState, ControlFlow, go_on, stop, block, buffered, not_buffered, too_large,
}
use budu_waf.External.{Externals}
use budu_waf.Parser.{normalize_into}

pub record Signature : Type 0 where
  pub id : Text
  pub literal : Option Text
  pub regex : Option Text
  pub status : ℕ
  pub reason : Text

pub data SignatureError : Type 0 where
  bad_status needs_pattern : Text → SignatureError
  bad_literals bad_regexes empty : SignatureError

pub data Result (A : Type 0) : Type 0 where
  ok : A → Result A
  err : SignatureError → Result A

-- the same record is the `Meta` of a pattern and the `Hit` of a scan
pub record Hit : Type 0 where
  pub rule_id : Text
  pub status : ℕ
  pub reason : Text

pub record SignatureDb : Type 0 where
  pub literals : List Text
  pub literal_meta : List Hit
  pub regexes : List Text
  pub regex_meta : List Hit
  pub count : ℕ

unfoldable pub meta_of : Signature → Hit
meta_of s = record {
  rule_id = s.id;
  status = s.status;
  reason = if is_empty s.reason then s.id else s.reason;
}

abbrev pub empty_db : SignatureDb
empty_db = record { literals = []; literal_meta = []; regexes = []; regex_meta = []; count = 0 }

-- one signature added to the patterns: the literal, if it has one, or else the expression
unfoldable pub add_pattern :
    Signature → Option Text → Option Text → SignatureDb → Result SignatureDb
add_pattern s (some l) regex db = ok (record db {
  literals = db.literals ++ (to_lower l ∷ []);
  literal_meta = db.literal_meta ++ (meta_of s ∷ []);
})
add_pattern s none (some re) db = ok (record db {
  regexes = db.regexes ++ (re ∷ []);
  regex_meta = db.regex_meta ++ (meta_of s ∷ []);
})
add_pattern s none none db = err (needs_pattern s.id)

module _ (x : Externals) where
  unfoldable pub add_signature : Signature → SignatureDb → Result SignatureDb
  add_signature s db =
      if x.status_ok s.status then add_pattern s s.literal s.regex db else err (bad_status s.id)

  unfoldable pub add_signatures : List Signature → SignatureDb → Result SignatureDb
  add_signatures [] db = ok db
  add_signatures (s ∷ ss) db = elim (add_signature s db) [
    | err e ↦ err e
    | ok db' ↦ add_signatures ss db'
  ]

  -- the checks behind the loop
  unfoldable pub finish : ℕ → SignatureDb → Result SignatureDb
  finish n db =
      if is_empty db.literals && is_empty db.regexes
      then err empty
      else if x.literals_ok db.literals
      then (if x.regex_set_ok db.regexes then ok (record db { count = n }) else err bad_regexes)
      else err bad_literals

  unfoldable pub compile : List Signature → Result SignatureDb
  compile sigs = elim (add_signatures sigs empty_db) [
    | err e ↦ err e
    | ok db ↦ finish (length sigs) db
  ]

  -- the first index of the set's matches, as its record
  abbrev first_match : List Hit → List ℕ → Option Hit
  first_match metas [] = none
  first_match metas (i ∷ is) = get_elem? metas i

  -- The literals are searched first. An index out of range, at which the code would panic, gives none.
  unfoldable pub scan : SignatureDb → Text → Option Hit
  scan db haystack = elim (x.find_literal db.literals haystack) [
    | some i ↦ get_elem? db.literal_meta i
    | none ↦ first_match db.regex_meta (x.regex_set_matches db.regexes haystack)
  ]

  -- The text that is scanned: path, query and buffered body, in their normal form.
  abbrev hay_path : RequestCtx x.Headers → Text
  hay_path ctx = elim ctx.normalized.path [
    | some p ↦ p
    | none ↦ normalize_into (as_bytes ctx.path) false []
  ]

  abbrev hay_raw_query : Option Text → Text → Text
  hay_raw_query none hay = hay
  hay_raw_query (some q) hay = normalize_into (as_bytes q) true (hay ++ (b'?' ∷ []))

  abbrev hay_query : RequestCtx x.Headers → Text → Text
  hay_query ctx hay = elim ctx.normalized.query [
    | some q ↦ hay ++ (b'?' ∷ q)
    | none ↦ hay_raw_query ctx.query hay
  ]

  abbrev hay_body : BodyState → Text → Text
  hay_body (buffered bytes) hay = normalize_into bytes true (hay ++ (10 ∷ []))
  hay_body not_buffered hay = hay
  hay_body too_large hay = hay

  unfoldable pub haystack : RequestCtx x.Headers → Text
  haystack ctx = hay_body ctx.body (hay_query ctx (hay_path ctx))

  unfoldable pub inspect : SignatureDb → RequestCtx x.Headers → ControlFlow
  inspect db ctx = elim (scan db (haystack ctx)) [
    | some hit ↦ stop (block hit.rule_id hit.status hit.reason)
    | none ↦ go_on
  ]
