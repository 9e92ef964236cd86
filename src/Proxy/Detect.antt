-- ===== src/Proxy/Detect.antt =====
-- crates/budu-proxy/src/lib.rs: what is enforced in detection mode.
use budu_waf.Prelude.{
  ℕ, ◌≡◌, Bool, true, false, not, ◌||◌, Option, Text, lit, eq_text, all, Option-cases, inl, inr,
}
use budu_waf.Common.{WafDecision, allow, block, rate_limited, IpAddr}
use budu_waf.External.{Externals}
use budu_waf.Pipeline.{Pipeline}
use budu_waf.Proxy.Model.{Http, Config, Request, Site, Audit}
use budu_waf.Proxy.Handle.{Tag, act_on, answer_now, audit_decision}
use budu_waf.Proxy.Headers.{rewrite_uri}
use budu_waf.Proxy.Respond.{forward}
use budu_waf.Proxy.Serve.{is_detect, handle_inner}
use budu_waf.Proxy.Answers.{Answers, handle_inner-Answers}
use budu_waf.Proxy.Keeping.{IsKept, handle_inner-kept}

-- a record that was only logged, or is of a limit on resources
abbrev pub is_limit : Audit → Bool
is_limit a =
    not a.enforced
    || eq_text a.rule_id (lit "ratelimit")
    || eq_text a.rule_id (lit "bodygate.too_large")

module _ {x : Externals} {h : Http x} where
  -- Nothing but limits on resources is enforced in the audit log.
  pub record OnlyLimits (s : Site x h) : Type 0 where
    pub limits : all is_limit s.audit ≡ true

  act_on-OnlyLimits :
      (d : WafDecision) (detecting : Bool) (tag : Tag) (s : Site x h)
      → detecting ≡ true
      → OnlyLimits s
      → OnlyLimits (act_on x h d detecting tag s).0
  unfolding act_on answer_now audit_decision
  act_on-OnlyLimits allow detecting tag s e k = k
  act_on-OnlyLimits (block id status reason) true tag s e k = record { limits = k.limits }
  act_on-OnlyLimits (block id status reason) false tag s e k = absurd (cc)
  act_on-OnlyLimits (rate_limited secs) detecting tag s e k = record { limits = k.limits }

  forward-OnlyLimits :
      (cfg : Config x h) (req : Request h.Uri x.Headers) (len : Option ℕ) (s : Site x h)
      → OnlyLimits s
      → OnlyLimits (forward x h cfg req len s).0
  unfolding forward
  forward-OnlyLimits cfg req len s k = elim (Option-cases (rewrite_uri x h cfg.upstream req.uri)) [
    | inl e ↦ rw (e, forward) k
    | inr (uri, e) ↦ rw (e, forward) (record { limits = k.limits })
  ]

  OnlyLimits-IsKept : (cfg : Config x h) → is_detect cfg.enforcement ≡ true → IsKept cfg OnlyLimits
  unfolding act_on answer_now audit_decision
  OnlyLimits-IsKept cfg detects = record {
    world = λ s w k. record { limits = k.limits };
    metrics = λ s m k. record { limits = k.limits };
    acts = λ d tag s. act_on-OnlyLimits d (is_detect cfg.enforcement) tag s detects;
    refuses = λ tag s k. record { limits = k.limits };
    sends = forward-OnlyLimits cfg;
  }

  -- In detection mode, a request is always answered, and never with the refusal of a stage or a rule of
  -- either phase: the answer is the upstream's reply, an error of the upstream or its reply, or that a
  -- rate limit is reached or the body is over the limit. If all that the audit log has as enforced is
  -- of these two limits, then it is so afterwards.
  pub handle_inner-OnlyLimits :
      (p : Pipeline x) (now : ℕ) (cfg : Config x h)
      → is_detect cfg.enforcement ≡ true
      → (req : Request h.Uri x.Headers) (peer : IpAddr) (id : Text) (s : Site x h) → OnlyLimits s
      → Answers p now cfg (handle_inner x h p now cfg req peer id s)
        × OnlyLimits (handle_inner x h p now cfg req peer id s).0
  handle_inner-OnlyLimits p now cfg detects req peer id s k = (
    handle_inner-Answers p now cfg detects req peer id s,
    handle_inner-kept cfg OnlyLimits (OnlyLimits-IsKept cfg detects) p now req peer id s k,
  )
