-- ===== src/Proxy/Sent.antt =====
-- crates/budu-proxy/src/lib.rs: what the upstream is ever sent.
use budu_waf.Prelude.{
  to_lower, eq_text_sound, Bool-cases, ℕ, ◌≡◌, refl, ◌∙◌, Bool, true, false, Option, none, Text,
  lit, All, Option-cases, inl, inr,
}
use budu_waf.Common.{WafDecision, allow, block, rate_limited, IpAddr}
use budu_waf.External.{Externals}
use budu_waf.Pipeline.{Pipeline}
use budu_waf.Proxy.Model.{Http, Config, Request, Site}
use budu_waf.Proxy.Handle.{Tag, act_on, answer_now, body_too_large}
use budu_waf.Proxy.Headers.{rewrite_uri, hop_by_hop, sanitize_forward_headers}
use budu_waf.Proxy.HopByHop.{HeaderLaws, same_name, named, sanitize_forward_headers-get}
use budu_waf.Proxy.Respond.{forward}
use budu_waf.Proxy.Serve.{is_detect, handle_inner}
use budu_waf.Proxy.Keeping.{IsKept, handle_inner-kept}

-- No header has one of the eight fixed hop-by-hop names, in any case.
pub record IsClean (x : Externals) (t : x.Headers) : Type 0 where
  pub absent : (m : Text) → named m hop_by_hop ≡ true → x.get t m ≡ none

not_content_length :
    (m : Text) → named m hop_by_hop ≡ true → same_name (lit "content-length") m ≡ false
unfolding named
not_content_length m k = elim (Bool-cases (same_name (lit "content-length") m)) [
  | inl e ↦
      let same : lit "content-length" ≡ to_lower m =
        eq_text_sound (lit "content-length") (to_lower m) e in
      absurd (let apart : false ≡ true = rw (← same) at k in cc)
  | inr e ↦ e
]

sanitized-IsClean :
    (x : Externals) (h : Http x)
    → HeaderLaws x
    → (t : x.Headers) (len : Option ℕ) → IsClean x (sanitize_forward_headers x h t len)
sanitized-IsClean x h laws t len = record {
  absent = λ m k.
      let e = not_content_length m k in
      let got = sanitize_forward_headers-get x h laws t len m e in got ∙ rw k refl;
}

module _ {x : Externals} {h : Http x} where
  -- No request that the upstream was sent has such a header.
  pub record OnlyClean (s : Site x h) : Type 0 where
    pub all_clean : All (λ r. IsClean x r.headers) s.sent

  act_on-OnlyClean :
      (d : WafDecision) (detecting : Bool) (tag : Tag) (s : Site x h)
      → OnlyClean s
      → OnlyClean (act_on x h d detecting tag s).0
  unfolding act_on answer_now
  act_on-OnlyClean allow detecting tag s k = k
  act_on-OnlyClean (block id status reason) true tag s k = record { all_clean = k.all_clean }
  act_on-OnlyClean (block id status reason) false tag s k = record { all_clean = k.all_clean }
  act_on-OnlyClean (rate_limited secs) detecting tag s k = record { all_clean = k.all_clean }

  module _ (laws : HeaderLaws x) where
    forward-OnlyClean :
        (cfg : Config x h) (req : Request h.Uri x.Headers) (len : Option ℕ) (s : Site x h)
        → OnlyClean s
        → OnlyClean (forward x h cfg req len s).0
    unfolding forward
    forward-OnlyClean cfg req len s k = elim (Option-cases (rewrite_uri x h cfg.upstream req.uri)) [
      | inl e ↦ rw (e, forward) k
      | inr (uri, e) ↦
          rw (e, forward)
            (record { all_clean = (sanitized-IsClean x h laws req.headers len, k.all_clean) })
    ]

    OnlyClean-IsKept : (cfg : Config x h) → IsKept cfg OnlyClean
    OnlyClean-IsKept cfg = record {
      world = λ s w k. record { all_clean = k.all_clean };
      metrics = λ s m k. record { all_clean = k.all_clean };
      acts = λ d tag s. act_on-OnlyClean d (is_detect cfg.enforcement) tag s;
      refuses = λ tag s. act_on-OnlyClean body_too_large false tag s;
      sends = forward-OnlyClean cfg;
    }

    pub handle_inner-OnlyClean :
        (cfg : Config x h) (p : Pipeline x) (now : ℕ) (req : Request h.Uri x.Headers)
        (peer : IpAddr) (id : Text) (s : Site x h)
        → OnlyClean s
        → OnlyClean (handle_inner x h p now cfg req peer id s).0
    handle_inner-OnlyClean cfg = handle_inner-kept cfg OnlyClean (OnlyClean-IsKept cfg)
