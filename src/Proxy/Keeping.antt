-- ===== src/Proxy/Keeping.antt =====
-- crates/budu-proxy/src/lib.rs: a property of what requests share that every part of `handle_inner` keeps is
-- kept by the whole.
use budu_waf.Prelude.{ℕ, false, Option, none, some, Text, Bytes, if_elim, ◌⊎◌, inl, inr}
use budu_waf.Common.{ResponseCtx, RequestCtx, WafDecision, allow, IpAddr}
use budu_waf.External.{Externals}
use budu_waf.Pipeline.{Pipeline}
use budu_waf.Proxy.Model.{Http, Config, Request, Response, Site}
use budu_waf.Proxy.Handle.{
  Tag, act_on, failed_upstream, on_forward_error, ForwardError, timeout, upstream, Collected, fits,
  over, failed, body_too_large,
}
use budu_waf.Proxy.Respond.{
  forward, judge, inspect_head, inspect_body, inspect_response, reframe, inspect_collected,
}
use budu_waf.Proxy.Serve.{
  is_detect, relay, tallied, finish, refuse_body, answered, gate, inspect_request, bypass,
  handle_inner, replied_with, send_on, with_body, pass_early,
}
use budu_waf.Common.Metrics.{Metrics}
use budu_waf.Rules.Eval.{World}
use budu_waf.Proxy.Tally.{unless_blocked-site}

-- What the parts do to it: a new state of the pipeline, new counters, a decision, the refusal of a body and
-- the request that is sent.
pub record IsKept {x : Externals} {h : Http x} (cfg : Config x h) (P : Site x h → Type 0)
    : Type 0 where
  pub world : (s : Site x h) (w : World x) → P s → P (record s { world = w })
  pub metrics : (s : Site x h) (m : Metrics) → P s → P (record s { metrics = m })
  pub acts :
      (d : WafDecision) (tag : Tag) (s : Site x h)
      → P s
      → P (act_on x h d (is_detect cfg.enforcement) tag s).0
  pub refuses : (tag : Tag) (s : Site x h) → P s → P (act_on x h body_too_large false tag s).0
  pub sends :
      (req : Request h.Uri x.Headers) (len : Option ℕ) (s : Site x h)
      → P s
      → P (forward x h cfg req len s).0

module _ {x : Externals} {h : Http x} (cfg : Config x h) (P : Site x h → Type 0)
    (kept : IsKept cfg P) (p : Pipeline x) (now : ℕ) where
  -- after a step that answers, or does not
  abbrev KeptBy : Site x h × Option (Response x.Headers) → Type 0
  KeptBy r = P r.0

  judge-kept :
      (rctx : ResponseCtx x.Headers) (tag : Tag) (s : Site x h)
      → P s
      → P (judge x h p now rctx (is_detect cfg.enforcement) tag s).0
  unfolding judge
  judge-kept rctx tag s k = kept.acts _ tag _ (kept.world s _ k)

  inspect_head-kept :
      (resp : Response x.Headers) (tag : Tag) (s : Site x h)
      → P s
      → P (inspect_head x h p now resp (is_detect cfg.enforcement) tag s).0
  unfolding inspect_head
  inspect_head-kept resp tag s k = unless_blocked-site P _ resp (judge-kept _ tag s k)

  inspect_collected-kept :
      (c : Collected) (resp : Response x.Headers) (tag : Tag) (s : Site x h)
      → P s
      → P (inspect_collected x h p now c resp (is_detect cfg.enforcement) tag s).0
  unfolding inspect_collected failed_upstream inspect_body
  inspect_collected-kept over resp tag s k = kept.metrics s _ k
  inspect_collected-kept failed resp tag s k = kept.metrics s _ k
  inspect_collected-kept (fits bytes) resp tag s k =
      unless_blocked-site P _ (reframe x h p now resp bytes) (judge-kept _ tag s k)

  inspect_response-kept :
      (resp : Response x.Headers) (tag : Tag) (s : Site x h)
      → P s
      → P (inspect_response x h p now cfg resp (is_detect cfg.enforcement) tag s).0
  unfolding inspect_response
  inspect_response-kept resp tag s k =
      if_elim (λ (r : Site x h × Response x.Headers). P r.0) _
        (inspect_collected-kept _ resp tag s k) (inspect_head-kept resp tag s k)

  replied_with-kept :
      (f : Response x.Headers → Site x h → Site x h × Response x.Headers)
      → ((resp : Response x.Headers) (s : Site x h) → P s → P (f resp s).0)
      → (r : Site x h × (ForwardError ⊎ Response x.Headers)) → P r.0
      → P (replied_with x h p now f r).0
  unfolding replied_with on_forward_error failed_upstream
  replied_with-kept f q (s, inl timeout) k = kept.metrics s _ k
  replied_with-kept f q (s, inl upstream) k = kept.metrics s _ k
  replied_with-kept f q (s, inr resp) k = q resp s k

  relay-kept :
      (req : Request h.Uri x.Headers) (len : Option ℕ) (id : Text)
      (f : Response x.Headers → Site x h → Site x h × Response x.Headers) (s : Site x h)
      → ((resp : Response x.Headers) (t : Site x h) → P t → P (f resp t).0)
      → P s
      → P (relay x h p now cfg req len id f (tallied x h p now allow s)).0
  unfolding relay tallied
  relay-kept req len id f s q k = replied_with-kept f q _ (kept.sends _ len _ (kept.metrics s _ k))

  send_on-kept :
      (req : Request h.Uri x.Headers) (len : Option ℕ) (tag : Tag)
      (r : Site x h × Option (Response x.Headers))
      → P r.0
      → P (send_on x h p now cfg req len tag r).0
  unfolding send_on
  send_on-kept req len tag (s, some answer) k = k
  send_on-kept req len tag (s, none) k =
      relay-kept req len tag.id _ s (λ resp t. inspect_response-kept resp tag t) k

  finish-kept :
      (req : Request h.Uri x.Headers) (len : Option ℕ) (ctx : RequestCtx x.Headers) (tag : Tag)
      (s : Site x h)
      → P s
      → P (answered x h p now (finish x h p now cfg req len ctx tag s)).0
  unfolding finish answered
  finish-kept req len ctx tag s k =
      send_on-kept req len tag _ (kept.acts _ tag _ (kept.world s _ k))

  refuse_body-kept : (tag : Tag) (s : Site x h) → P s → P (refuse_body x h p now tag s).0
  unfolding refuse_body
  refuse_body-kept tag s k = kept.refuses tag s k

  with_body-kept :
      (req : Request h.Uri x.Headers) (ctx : RequestCtx x.Headers) (tag : Tag) (s : Site x h)
      (bytes : Option Bytes)
      → P s
      → P (with_body x h p now cfg req ctx tag s bytes).0
  unfolding with_body
  with_body-kept req ctx tag s none k = refuse_body-kept tag s k
  with_body-kept req ctx tag s (some bytes) k = finish-kept _ _ _ tag s k

  gate-kept :
      (req : Request h.Uri x.Headers) (ctx : RequestCtx x.Headers) (tag : Tag) (s : Site x h)
      → P s
      → P (gate x h p now cfg req ctx tag s).0
  unfolding gate
  gate-kept req ctx tag s k =
      if_elim KeptBy _
        (if_elim KeptBy _ (refuse_body-kept tag s k) (with_body-kept req ctx tag s _ k))
        (finish-kept req none ctx tag s k)

  pass_early-kept :
      (req : Request h.Uri x.Headers) (ctx : RequestCtx x.Headers) (tag : Tag)
      (r : Site x h × Option (Response x.Headers))
      → P r.0
      → P (pass_early x h p now cfg req ctx tag r).0
  unfolding pass_early
  pass_early-kept req ctx tag (s, some answer) k = k
  pass_early-kept req ctx tag (s, none) k = gate-kept req ctx tag s k

  inspect_request-kept :
      (req : Request h.Uri x.Headers) (tag : Tag) (s : Site x h)
      → P s
      → P (inspect_request x h p now cfg req tag s).0
  unfolding inspect_request
  inspect_request-kept req tag s k =
      pass_early-kept req _ tag _ (kept.acts _ tag _ (kept.world s _ k))

  bypass-kept :
      (req : Request h.Uri x.Headers) (tag : Tag) (s : Site x h)
      → P s
      → P (answered x h p now (bypass x h p now cfg req tag s)).0
  unfolding bypass answered
  bypass-kept req tag s k = relay-kept req none tag.id _ _ (λ resp t l. l) (kept.metrics s _ k)

  pub handle_inner-kept :
      (req : Request h.Uri x.Headers) (peer : IpAddr) (id : Text) (s : Site x h)
      → P s
      → P (handle_inner x h p now cfg req peer id s).0
  unfolding handle_inner
  handle_inner-kept req peer id s k =
      if_elim KeptBy _ (bypass-kept req _ _ (kept.metrics s _ k))
        (inspect_request-kept req _ _ (kept.metrics s _ k))
