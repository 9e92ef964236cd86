-- ===== src/Rules/Match.antt =====
-- crates/budu-rules/src/ruleset.rs: the values that a field stands for, transforms, operators and
-- conditions. The clock is read once for an evaluation, in seconds since the epoch.
use budu_waf.Prelude.{
  ℕ, ◌+◌, ◌/◌, ◌%◌, Bool, true, false, xor, none, some, List, [], ◌∷◌, ◌++◌, Text, as_bytes, trim,
  to_lower, to_upper, split_whitespace, keep, not, any, all, eq_text, starts_with, ends_with,
  parse_signed, parse_unsigned, i64_max, u16_max, show_ℕ, ltb_ℤ, leb_ℤ, ◌==◌, is_some_and,
  unwrap_or, to_list, map, filter_map, length, ℤ,
}
use budu_waf.Prelude as P
use budu_waf.Common.{
  RequestCtx, ResponseCtx, BodyState, CountryCode, buffered, not_buffered, too_large,
}
use budu_waf.External.{Externals}
use budu_waf.Parser.{decode_into}
use budu_waf.Clock.{in_window, weekday, has_day}
use budu_waf.RateLimit.{get_counter}
use budu_waf.Rules.Model.{Field, Op, Transform, CompiledCond}
use budu_waf.Rules.Args.{header_str, collect_args, collect_cookies}

-- `" "`.join
abbrev join_spaces : List Text → Text
join_spaces [] = []
join_spaces (w ∷ []) = w
join_spaces (w ∷ ws) = w ++ (32 ∷ join_spaces ws)

unfoldable pub apply_transform : Transform → Text → Text
apply_transform Transform.lowercase s = to_lower s
apply_transform Transform.uppercase s = to_upper s
apply_transform Transform.url_decode s = decode_into (as_bytes s) true []
apply_transform Transform.compress_ws s = join_spaces (split_whitespace s)
apply_transform Transform.remove_nulls s = keep (λ c. not (c == 0)) s
apply_transform Transform.trimmed s = trim s

unfoldable pub apply_transforms : List Transform → Text → Text
apply_transforms [] s = s
apply_transforms (t ∷ ts) s = apply_transforms ts (apply_transform t s)

abbrev two_chars : CountryCode → Text
two_chars c = c.first ∷ c.second ∷ []

module _ (x : Externals) where
  abbrev number_test : Text → (ℤ → Bool) → Bool
  number_test value p = is_some_and (parse_signed i64_max (trim value)) p

  unfoldable pub eval_op : Op x → Text → Bool
  eval_op (Op.eq s) value = eq_text value s
  eval_op (Op.ne s) value = not (eq_text value s)
  eval_op (Op.contains s) value = P.contains value s
  eval_op (Op.starts_with s) value = starts_with value s
  eval_op (Op.ends_with s) value = ends_with value s
  eval_op (Op.regex re) value = x.is_match re value
  eval_op (Op.cidr net) value = false
  eval_op (Op.one_of list) value = any (λ s. eq_text s value) list
  eval_op (Op.gt n) value = number_test value (λ v. ltb_ℤ n v)
  eval_op (Op.lt n) value = number_test value (λ v. ltb_ℤ v n)
  eval_op (Op.ge n) value = number_test value (λ v. leb_ℤ n v)
  eval_op (Op.le n) value = number_test value (λ v. leb_ℤ v n)
  eval_op Op.detect_sqli value = x.detect_sqli (as_bytes value)
  eval_op Op.detect_xss value = x.detect_xss (as_bytes value)
  eval_op (Op.time_between start end offset_min) value =
      is_some_and (parse_unsigned u16_max (trim value)) (λ now. in_window now start end offset_min)
  eval_op (Op.day_of_week mask offset_min) value =
      number_test value (λ epoch_min. has_day mask (weekday epoch_min offset_min))

  abbrev body_text : BodyState → List Text
  body_text (buffered b) = x.utf8_lossy b ∷ []
  body_text not_buffered = []
  body_text too_large = []

  abbrev keys : List (Text × Text) → List Text
  keys = map (λ a. a.0)

  abbrev values : List (Text × Text) → List Text
  values = map (λ a. a.1)

  abbrev named : Text → List (Text × Text) → List Text
  named name pairs = values (keep (λ a. eq_text a.0 name) pairs)

  unfoldable pub collect_candidates : Field → RequestCtx x.Headers → x.Cache → ℕ → List Text
  collect_candidates (Field.counter name) ctx counters now =
      show_ℕ (get_counter x counters name ctx.client.ip now) ∷ []
  collect_candidates Field.method ctx counters now = ctx.method ∷ []
  collect_candidates Field.path ctx counters now = ctx.path ∷ []
  collect_candidates Field.query ctx counters now = unwrap_or ctx.query [] ∷ []
  collect_candidates Field.uri ctx counters now =
      (elim ctx.query [ some q ↦ ctx.path ++ (b'?' ∷ q) | none ↦ ctx.path ]) ∷ []
  collect_candidates (Field.header name) ctx counters now = to_list (header_str x ctx.headers name)
  collect_candidates Field.body ctx counters now = body_text ctx.body
  collect_candidates Field.ip ctx counters now = x.show_ip ctx.client.ip ∷ []
  collect_candidates Field.country ctx counters now =
      to_list (elim ctx.client.geo [ none ↦ none | some c ↦ some (two_chars c) ])
  collect_candidates (Field.arg name) ctx counters now = named name (collect_args x ctx)
  collect_candidates Field.arg_names ctx counters now = keys (collect_args x ctx)
  collect_candidates Field.args_count ctx counters now = show_ℕ (length (collect_args x ctx)) ∷ []
  collect_candidates (Field.cookie name) ctx counters now = named name (collect_cookies x ctx)
  collect_candidates Field.cookie_names ctx counters now = keys (collect_cookies x ctx)
  collect_candidates Field.args ctx counters now = values (collect_args x ctx)
  collect_candidates Field.headers ctx counters now =
      filter_map (λ e. x.to_str e.1) (x.entries ctx.headers)
  collect_candidates Field.header_names ctx counters now = x.names ctx.headers
  collect_candidates Field.cookies ctx counters now = values (collect_cookies x ctx)
  collect_candidates Field.time ctx counters now = show_ℕ (now % 86_400 / 60) ∷ []
  collect_candidates Field.day ctx counters now = show_ℕ (now / 60) ∷ []
  collect_candidates Field.status ctx counters now = []
  collect_candidates (Field.resp_header name) ctx counters now = []
  collect_candidates Field.resp_body ctx counters now = []

  unfoldable pub collect_response_candidates :
      Field → ResponseCtx x.Headers → x.Cache → ℕ → List Text
  collect_response_candidates Field.status rctx counters now = show_ℕ rctx.status ∷ []
  collect_response_candidates (Field.resp_header name) rctx counters now =
      to_list (header_str x rctx.headers name)
  collect_response_candidates Field.resp_body rctx counters now = body_text rctx.body
  collect_response_candidates Field.ip rctx counters now = x.show_ip rctx.client.ip ∷ []
  collect_response_candidates Field.path rctx counters now = rctx.path ∷ []
  collect_response_candidates (Field.counter name) rctx counters now =
      show_ℕ (get_counter x counters name rctx.client.ip now) ∷ []
  collect_response_candidates _ rctx counters now = []

  unfoldable pub eval_candidates : CompiledCond x → List Text → Bool
  eval_candidates c candidates =
      any (λ raw. eval_op c.op (apply_transforms c.transforms raw)) candidates

  -- the address test of `cidr`, or the candidates of the field
  abbrev raw_match : Op x → Bool → (x.Net → Bool) → Bool
  raw_match (Op.cidr net) on_values on_net = on_net net
  raw_match _ on_values on_net = on_values

  unfoldable pub matches_request : CompiledCond x → RequestCtx x.Headers → x.Cache → ℕ → Bool
  matches_request c ctx counters now =
      xor
        (raw_match c.op (eval_candidates c (collect_candidates c.field ctx counters now))
          (λ net. x.net_contains net ctx.client.ip))
        c.negate

  unfoldable pub matches_response : CompiledCond x → ResponseCtx x.Headers → x.Cache → ℕ → Bool
  matches_response c rctx counters now =
      xor
        (raw_match c.op (eval_candidates c (collect_response_candidates c.field rctx counters now))
          (λ net. x.net_contains net rctx.client.ip))
        c.negate

  unfoldable pub all_request : List (CompiledCond x) → RequestCtx x.Headers → x.Cache → ℕ → Bool
  all_request conds ctx counters now = all (λ c. matches_request c ctx counters now) conds

  unfoldable pub all_response : List (CompiledCond x) → ResponseCtx x.Headers → x.Cache → ℕ → Bool
  all_response conds rctx counters now = all (λ c. matches_response c rctx counters now) conds
