-- ===== src/Proxy/Handle.antt =====
-- crates/budu-proxy/src/lib.rs: the handling of one request. Time is read once for a request.
use budu_waf.Prelude.{
  ℕ, ◌+◌, Bool, true, false, Option, none, some, List, [], ◌∷◌, ◌++◌, Text, Bytes, lit, ltb, length,
  show_ℕ, if◌then◌else◌, as_bytes,
}
use budu_waf.Common.{ClientInfo, WafDecision, allow, block, rate_limited}
use budu_waf.Common.Metrics.{tally, upstream_error, would_block}
use budu_waf.External.{Externals}
use budu_waf.Proxy.Model.{
  Http, Response, Body, full, stream, Frame, chunk, trailers, broken, Site, Audit,
}

abbrev pub body_too_large : WafDecision
body_too_large = block (lit "bodygate.too_large") 413 (lit "request body exceeds inspection limit")

-- Why a forward failed.
pub data ForwardError : Type 0 where
  timeout upstream : ForwardError

-- What a request is known by in the audit log.
pub record Tag : Type 0 where
  pub client : ClientInfo
  pub method : Text
  pub path : Text
  pub id : Text

-- The loop that buffers a response body: it fits, it is over the limit, or the stream broke.
pub data Collected : Type 0 where
  fits : Bytes → Collected
  over failed : Collected

unfoldable pub collect_frames : ℕ → Bytes → List Frame → Collected
collect_frames max buf [] = fits buf
collect_frames max buf (chunk bytes ∷ frames) =
    let rest = collect_frames max (buf ++ bytes) frames in
    if ltb max (length buf + length bytes) then over else rest
collect_frames max buf (trailers ∷ frames) = collect_frames max buf frames
collect_frames max buf (broken ∷ frames) = failed

-- the frames of a body: a full body is one frame of data
unfoldable pub frames_of : Body → List Frame
frames_of (full bytes) = chunk bytes ∷ []
frames_of (stream frames) = frames

module _ (x : Externals) (h : Http x) where
  unfoldable pub error_response : ℕ → Text → Response x.Headers
  error_response status message = record {
    status = status;
    headers =
        x.insert h.no_headers (lit "content-type") (as_bytes (lit "text/plain; charset=utf-8"));
    body = full (as_bytes (message ++ lit "\n"));
  }

  unfoldable pub decision_response : WafDecision → Response x.Headers
  decision_response allow = error_response 500 (lit "internal error")
  decision_response (block rule_id status reason) = error_response status reason
  decision_response (rate_limited secs) =
      let resp = error_response 429 (lit "rate limit exceeded") in
      elim (h.header_value (show_ℕ secs)) [
        | none ↦ resp
        | some v ↦ record resp { headers = x.insert resp.headers (lit "retry-after") v }
      ]

  -- `audit_decision`
  unfoldable pub audit_decision : Tag → WafDecision → Bool → List Audit → List Audit
  audit_decision tag allow enforced log = log
  audit_decision tag (block rule_id status reason) enforced log =
      record {
        client_ip = tag.client.ip;
        method = tag.method;
        path = tag.path;
        rule_id = rule_id;
        status = status;
        enforced = enforced;
        request_id = tag.id;
      }
      ∷ log
  audit_decision tag (rate_limited secs) enforced log =
      record {
        client_ip = tag.client.ip;
        method = tag.method;
        path = tag.path;
        rule_id = lit "ratelimit";
        status = 429;
        enforced = enforced;
        request_id = tag.id;
      }
      ∷ log

  -- a decision that is answered now
  unfoldable pub answer_now : Tag → WafDecision → Site x h → Site x h × Option (Response x.Headers)
  answer_now tag decision site = (
    record site {
      metrics = tally site.metrics decision;
      audit = audit_decision tag decision true site.audit;
    },
    some (decision_response decision),
  )

  unfoldable pub act_on :
      WafDecision → Bool → Tag → Site x h → Site x h × Option (Response x.Headers)
  act_on allow detecting tag site = (site, none)
  act_on (block id status reason) detecting tag site =
      if detecting
      then (
        record site {
          metrics = would_block site.metrics;
          audit = audit_decision tag (block id status reason) false site.audit;
        },
        none,
      )
      else answer_now tag (block id status reason) site
  act_on (rate_limited secs) detecting tag site = answer_now tag (rate_limited secs) site

  unfoldable pub failed_upstream : Site x h → Site x h
  failed_upstream site = record site { metrics = upstream_error site.metrics }

  unfoldable pub on_forward_error : ForwardError → Site x h → Site x h × Response x.Headers
  on_forward_error timeout site =
      (failed_upstream site, error_response 504 (lit "upstream timeout"))
  on_forward_error upstream site =
      (failed_upstream site, error_response 502 (lit "upstream unavailable"))
