-- ===== src/Proxy/Refused.antt =====
-- crates/budu-proxy/src/lib.rs: a client on the blocklist, from its request to the answer.
use budu_waf.Prelude.{ℕ, ◌≡◌, refl, false, true, none, some, [], ◌∷◌, Text, lit}
use budu_waf.Common.{RequestCtx, not_buffered, block, IpAddr}
use budu_waf.Common.Metrics.{request, tally}
use budu_waf.External.{Externals}
use budu_waf.Reputation.{contains}
use budu_waf.Pipeline.{Pipeline, is_whitelisted}
use budu_waf.Pipeline.Order.{evaluate_early-blocklisted}
use budu_waf.Proxy.Model.{Http, Config, Request, Site, Audit}
use budu_waf.Proxy.Handle.{
  Tag, act_on, answer_now, audit_decision, error_response, decision_response,
}
use budu_waf.Proxy.Headers.{resolve_client}
use budu_waf.Proxy.Serve.{is_detect, inspect_request, pass_early, tag_of, handle_inner}

module _ {x : Externals} {h : Http x} (p : Pipeline x) (now : ℕ) (cfg : Config x h) where
  -- what the audit log has of the refusal
  abbrev pub refusal : Tag → Audit
  refusal tag = record {
    client_ip = tag.client.ip;
    method = tag.method;
    path = tag.path;
    rule_id = lit "reputation.blocklist";
    status = 403;
    enforced = true;
    request_id = tag.id;
  }

  -- A site after the refusal of one request.
  abbrev pub refused : Tag → Site x h → Site x h
  refused tag s = record s {
    metrics =
        tally (request s.metrics)
          (block (lit "reputation.blocklist") 403 (lit "source IP is blocklisted"));
    audit = refusal tag ∷ s.audit;
  }

  -- what the stages are given of a request
  abbrev ctx_of : Request h.Uri x.Headers → Tag → RequestCtx x.Headers
  ctx_of req tag = record {
    method = req.method;
    path = h.uri_path req.uri;
    query = h.uri_query req.uri;
    headers = req.headers;
    client = tag.client;
    body = not_buffered;
    normalized = record { path = none; query = none; scratch = [] };
  }

  inspect_request-refused :
      (req : Request h.Uri x.Headers) (tag : Tag) (s : Site x h)
      → is_detect cfg.enforcement ≡ false
      → contains x p.blocks tag.client.ip now ≡ true
      → inspect_request x h p now cfg req tag (record s { metrics = request s.metrics })
        ≡ (refused tag s, some (error_response x h 403 (lit "source IP is blocklisted")))
  unfolding inspect_request pass_early act_on answer_now audit_decision decision_response
  inspect_request-refused req tag s e k =
      rw (evaluate_early-blocklisted x p now s.world (ctx_of req tag) k, e) refl

  pub handle_inner-refused :
      (req : Request h.Uri x.Headers) (peer : IpAddr) (id : Text) (s : Site x h)
      → is_detect cfg.enforcement ≡ false
      → contains x p.blocks (resolve_client x h cfg req.headers peer).ip now ≡ true
      → contains x p.allowlist (resolve_client x h cfg req.headers peer).ip now ≡ false
      → handle_inner x h p now cfg req peer id s ≡ (
        refused (tag_of x h p now cfg req peer id) s,
        some (error_response x h 403 (lit "source IP is blocklisted")),
      )
  unfolding handle_inner tag_of is_whitelisted
  handle_inner-refused req peer id s e k l =
      rw (l, handle_inner) (inspect_request-refused req (tag_of x h p now cfg req peer id) s e k)
