-- ===== src/Proxy/Answers.antt =====
-- crates/budu-proxy/src/lib.rs: the answers that detection mode gives.
use budu_waf.Prelude.{
  ℕ, ◌≡◌, refl, Bool, true, false, Option, none, some, [], Text, Bytes, lit, if_elim, ◌⊎◌, inl, inr,
}
use budu_waf.Common.{ResponseCtx, RequestCtx, WafDecision, allow, block, rate_limited, IpAddr}
use budu_waf.External.{Externals}
use budu_waf.Pipeline.{Pipeline}
use budu_waf.Proxy.Model.{Http, Config, Request, Response, Site}
use budu_waf.Proxy.Handle.{
  Tag, act_on, answer_now, decision_response, error_response, body_too_large, on_forward_error,
  ForwardError, Collected, fits, over, failed, collect_frames, frames_of,
}
use budu_waf.Proxy.Respond.{
  forward, judge, unless_blocked, inspect_head, inspect_body, inspect_response, reframe,
  inspect_collected,
}
use budu_waf.Proxy.Serve.{
  is_detect, relay, finish, refuse_body, answered, gate, inspect_request, bypass, handle_inner,
  replied_with, send_on, with_body, pass_early,
}

module _ {x : Externals} {h : Http x} (p : Pipeline x) (now : ℕ) (cfg : Config x h) where
  -- The reply of the upstream to a request that was sent.
  pub record IsReply (resp : Response x.Headers) : Type 0 where
    pub req : Request h.Uri x.Headers
    pub len : Option ℕ
    pub before : Site x h
    pub sent : (forward x h cfg req len before).1 ≡ inr resp

  -- The answers that are no refusal by a stage or a rule: that a rate limit is reached or a body is over
  -- the limit, that the upstream or its reply failed, and the upstream's own reply, if buffered
  -- then with the bytes that it had.
  pub data Permitted : Response x.Headers → Type 0 where
    limited : (secs : ℕ) → Permitted (decision_response x h (rate_limited secs))
    too_large : Permitted (decision_response x h body_too_large)
    no_reply : (why : ForwardError) (s : Site x h) → Permitted (on_forward_error x h why s).1
    reply_too_large : Permitted (error_response x h 502 (lit "response too large to inspect"))
    reply_broken : Permitted (error_response x h 502 (lit "upstream read error"))
    relayed : {resp : Response x.Headers} → IsReply resp → Permitted resp
    buffered :
        {resp : Response x.Headers} (bytes : Bytes)
        → IsReply resp
        → collect_frames cfg.max_inspect_body [] (frames_of resp.body) ≡ fits bytes
        → Permitted (reframe x h p now resp bytes)

  -- No answer yet, or one of these.
  data Passes : Option (Response x.Headers) → Type 0 where
    goes_on : Passes none
    stops : {answer : Response x.Headers} → Permitted answer → Passes (some answer)

  -- There is an answer, one of these.
  pub record Answers (r : Site x h × Option (Response x.Headers)) : Type 0 where
    pub answer : Response x.Headers
    pub given : r.1 ≡ some answer
    pub permitted : Permitted answer

  act_on-Passes :
      (d : WafDecision) (detecting : Bool) (tag : Tag) (s : Site x h)
      → detecting ≡ true
      → Passes (act_on x h d detecting tag s).1
  unfolding act_on answer_now
  act_on-Passes allow detecting tag s e = goes_on
  act_on-Passes (block id status reason) true tag s e = goes_on
  act_on-Passes (block id status reason) false tag s e = absurd (cc)
  act_on-Passes (rate_limited secs) detecting tag s e = stops (limited secs)

  unless_blocked-Permitted :
      (r : Site x h × Option (Response x.Headers)) (resp : Response x.Headers)
      → Passes r.1
      → Permitted resp
      → Permitted (unless_blocked x h r resp).1
  unfolding unless_blocked
  unless_blocked-Permitted (s, none) resp goes_on k = k
  unless_blocked-Permitted (s, some answer) resp (stops a) k = a

  module _ (detects : is_detect cfg.enforcement ≡ true) where
    judge-Passes :
        (rctx : ResponseCtx x.Headers) (tag : Tag) (s : Site x h)
        → Passes (judge x h p now rctx (is_detect cfg.enforcement) tag s).1
    unfolding judge
    judge-Passes rctx tag s = act_on-Passes _ _ tag _ detects

    inspect_head-Permitted :
        (resp : Response x.Headers) (tag : Tag) (s : Site x h)
        → IsReply resp
        → Permitted (inspect_head x h p now resp (is_detect cfg.enforcement) tag s).1
    unfolding inspect_head
    inspect_head-Permitted resp tag s k =
        unless_blocked-Permitted _ resp (judge-Passes _ tag s) (relayed k)

    inspect_collected-Permitted :
        (c : Collected) (resp : Response x.Headers) (tag : Tag) (s : Site x h)
        → IsReply resp
        → collect_frames cfg.max_inspect_body [] (frames_of resp.body) ≡ c
        → Permitted (inspect_collected x h p now c resp (is_detect cfg.enforcement) tag s).1
    unfolding inspect_collected inspect_body
    inspect_collected-Permitted over resp tag s k e = reply_too_large
    inspect_collected-Permitted failed resp tag s k e = reply_broken
    inspect_collected-Permitted (fits bytes) resp tag s k e =
        unless_blocked-Permitted _ (reframe x h p now resp bytes) (judge-Passes _ tag s)
          (buffered bytes k e)

    inspect_response-Permitted :
        (resp : Response x.Headers) (tag : Tag) (s : Site x h)
        → IsReply resp
        → Permitted (inspect_response x h p now cfg resp (is_detect cfg.enforcement) tag s).1
    unfolding inspect_response
    inspect_response-Permitted resp tag s k =
        if_elim (λ (r : Site x h × Response x.Headers). Permitted r.1) _
          (inspect_collected-Permitted _ resp tag s k refl) (inspect_head-Permitted resp tag s k)

    replied_with-Permitted :
        (f : Response x.Headers → Site x h → Site x h × Response x.Headers)
        (r : Site x h × (ForwardError ⊎ Response x.Headers))
        → ((resp : Response x.Headers) (s : Site x h) → r.1 ≡ inr resp → Permitted (f resp s).1)
        → Permitted (replied_with x h p now f r).1
    unfolding replied_with
    replied_with-Permitted f (s, inl why) q = no_reply why s
    replied_with-Permitted f (s, inr resp) q = q resp s refl

    relay-Permitted :
        (req : Request h.Uri x.Headers) (len : Option ℕ) (id : Text)
        (f : Response x.Headers → Site x h → Site x h × Response x.Headers) (s : Site x h)
        → ((resp : Response x.Headers) (t : Site x h) → IsReply resp → Permitted (f resp t).1)
        → Permitted (relay x h p now cfg req len id f s).1
    unfolding relay
    relay-Permitted req len id f s q =
        replied_with-Permitted f _
          (λ resp t e. q resp t (record { req = _; len = len; before = s; sent = e }))

    send_on-Permitted :
        (req : Request h.Uri x.Headers) (len : Option ℕ) (tag : Tag)
        (r : Site x h × Option (Response x.Headers))
        → Passes r.1
        → Permitted (send_on x h p now cfg req len tag r).1
    unfolding send_on
    send_on-Permitted req len tag (s, some answer) (stops k) = k
    send_on-Permitted req len tag (s, none) goes_on =
        relay-Permitted req len tag.id _ _ (λ resp t. inspect_response-Permitted resp tag t)

    finish-Answers :
        (req : Request h.Uri x.Headers) (len : Option ℕ) (ctx : RequestCtx x.Headers) (tag : Tag)
        (s : Site x h)
        → Answers (answered x h p now (finish x h p now cfg req len ctx tag s))
    unfolding finish answered
    finish-Answers req len ctx tag s = record {
      answer = _;
      given = refl;
      permitted = send_on-Permitted req len tag _ (act_on-Passes _ _ tag _ detects);
    }

    refuse_body-Answers : (tag : Tag) (s : Site x h) → Answers (refuse_body x h p now tag s)
    unfolding refuse_body act_on answer_now
    refuse_body-Answers tag s = record { answer = _; given = refl; permitted = too_large }

    with_body-Answers :
        (req : Request h.Uri x.Headers) (ctx : RequestCtx x.Headers) (tag : Tag) (s : Site x h)
        (bytes : Option Bytes)
        → Answers (with_body x h p now cfg req ctx tag s bytes)
    unfolding with_body
    with_body-Answers req ctx tag s none = refuse_body-Answers tag s
    with_body-Answers req ctx tag s (some bytes) = finish-Answers _ _ _ tag s

    gate-Answers :
        (req : Request h.Uri x.Headers) (ctx : RequestCtx x.Headers) (tag : Tag) (s : Site x h)
        → Answers (gate x h p now cfg req ctx tag s)
    unfolding gate
    gate-Answers req ctx tag s =
        if_elim Answers _
          (if_elim Answers _ (refuse_body-Answers tag s) (with_body-Answers req ctx tag s _))
          (finish-Answers req none ctx tag s)

    pass_early-Answers :
        (req : Request h.Uri x.Headers) (ctx : RequestCtx x.Headers) (tag : Tag)
        (r : Site x h × Option (Response x.Headers))
        → Passes r.1
        → Answers (pass_early x h p now cfg req ctx tag r)
    unfolding pass_early
    pass_early-Answers req ctx tag (s, some answer) (stops k) = record {
      answer = _;
      given = refl;
      permitted = k;
    }
    pass_early-Answers req ctx tag (s, none) goes_on = gate-Answers req ctx tag s

    inspect_request-Answers :
        (req : Request h.Uri x.Headers) (tag : Tag) (s : Site x h)
        → Answers (inspect_request x h p now cfg req tag s)
    unfolding inspect_request
    inspect_request-Answers req tag s =
        pass_early-Answers req _ tag _ (act_on-Passes _ _ tag _ detects)

    bypass-Answers :
        (req : Request h.Uri x.Headers) (tag : Tag) (s : Site x h)
        → Answers (answered x h p now (bypass x h p now cfg req tag s))
    unfolding bypass answered
    bypass-Answers req tag s = record {
      answer = _;
      given = refl;
      permitted = relay-Permitted req none tag.id _ _ (λ resp t k. relayed k);
    }

    pub handle_inner-Answers :
        (req : Request h.Uri x.Headers) (peer : IpAddr) (id : Text) (s : Site x h)
        → Answers (handle_inner x h p now cfg req peer id s)
    unfolding handle_inner
    handle_inner-Answers req peer id s =
        if_elim Answers _ (bypass-Answers req _ _) (inspect_request-Answers req _ _)
