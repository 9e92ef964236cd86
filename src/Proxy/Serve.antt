-- ===== src/Proxy/Serve.antt =====
-- crates/budu-proxy/src/lib.rs: `handle_inner` and `handle`.
use budu_waf.Prelude.{
  ℕ, Bool, true, false, Option, none, some, [], Text, Bytes, length, if◌then◌else◌, ◌⊎◌, inl, inr,
}
use budu_waf.Common.{IpAddr, RequestCtx, not_buffered, buffered, WafDecision, allow}
use budu_waf.Common.Metrics.{tally, whitelisted, request}
use budu_waf.External.{Externals}
use budu_waf.Pipeline.{Pipeline, evaluate_early, evaluate_late, from_config, is_whitelisted}
use budu_waf.Proxy.Model.{Http, Config, Request, Response, full, Site, Enforcement, enforce, detect}
use budu_waf.Proxy.Headers.{should_inspect_body, declared_len_over, resolve_client, set_request_id}
use budu_waf.Proxy.Handle.{ForwardError, Tag, act_on, on_forward_error, body_too_large}
use budu_waf.Proxy.Reqid.{resolve}
use budu_waf.Proxy.Respond.{forward, inspect_response}

abbrev pub is_detect : Enforcement → Bool
is_detect detect = true
is_detect enforce = false

module _ (x : Externals) (h : Http x) (p : Pipeline x) (now : ℕ) where
  -- what the client gets of an upstream's reply, if `inspected` keeps it, or of a failure
  unfoldable pub replied_with :
      (Response x.Headers → Site x h → Site x h × Response x.Headers)
      → Site x h × (ForwardError ⊎ Response x.Headers)
      → Site x h × Response x.Headers
  replied_with inspected (site, inl error) = on_forward_error x h error site
  replied_with inspected (site, inr resp) = inspected resp site

  -- an allowed request, sent on with its id
  unfoldable pub relay :
      Config x h
      → Request h.Uri x.Headers
      → Option ℕ
      → Text
      → (Response x.Headers → Site x h → Site x h × Response x.Headers)
      → Site x h
      → Site x h × Response x.Headers
  relay cfg req buffered_len id inspected site =
      let headers = set_request_id x h req.headers cfg.request_id_header id in
      replied_with inspected (forward x h cfg (record req { headers = headers }) buffered_len site)

  unfoldable pub tallied : WafDecision → Site x h → Site x h
  tallied decision site = record site { metrics = tally site.metrics decision }

  -- after the late stages: the answer to a refused request, or the upstream's to the others
  unfoldable pub send_on :
      Config x h
      → Request h.Uri x.Headers
      → Option ℕ
      → Tag
      → Site x h × Option (Response x.Headers)
      → Site x h × Response x.Headers
  send_on cfg req buffered_len tag (site, some answer) = (site, answer)
  send_on cfg req buffered_len tag (site, none) =
      relay cfg req buffered_len tag.id
        (λ resp s. inspect_response x h p now cfg resp (is_detect cfg.enforcement) tag s)
        (tallied allow site)

  -- the late stages and what follows them, for a request with the body that is sent on
  unfoldable pub finish :
      Config x h
      → Request h.Uri x.Headers
      → Option ℕ
      → RequestCtx x.Headers
      → Tag
      → Site x h
      → Site x h × Response x.Headers
  finish cfg req buffered_len ctx tag site =
      let (decision, world, ctx') = evaluate_late (from_config x p now) site.world ctx in
      send_on cfg req buffered_len tag
        (act_on x h decision (is_detect cfg.enforcement) tag (record site { world = world }))

  -- `body_too_large` is enforced in both modes; `none` would be the panic of `expect`
  unfoldable pub refuse_body : Tag → Site x h → Site x h × Option (Response x.Headers)
  refuse_body tag site = act_on x h body_too_large false tag site

  unfoldable pub answered : Site x h × Response x.Headers → Site x h × Option (Response x.Headers)
  answered (site, resp) = (site, some resp)

  -- a body that was collected within the limit, or not
  unfoldable pub with_body :
      Config x h
      → Request h.Uri x.Headers
      → RequestCtx x.Headers
      → Tag
      → Site x h
      → Option Bytes
      → Site x h × Option (Response x.Headers)
  with_body cfg req ctx tag site none = refuse_body tag site
  with_body cfg req ctx tag site (some bytes) = answered (
      finish cfg (record req { body = full bytes }) (some (length bytes))
        (record ctx { body = buffered bytes }) tag site)

  -- the body gate, and the late stages behind it
  unfoldable pub gate :
      Config x h
      → Request h.Uri x.Headers
      → RequestCtx x.Headers
      → Tag
      → Site x h
      → Site x h × Option (Response x.Headers)
  gate cfg req ctx tag site =
      if should_inspect_body x h req.method req.headers cfg
      then if declared_len_over x req.headers cfg.max_inspect_body
        then refuse_body tag site
        else with_body cfg req ctx tag site (h.collect_limited req.body cfg.max_inspect_body)
      else answered (finish cfg req none ctx tag site)

  -- after the early stages
  unfoldable pub pass_early :
      Config x h
      → Request h.Uri x.Headers
      → RequestCtx x.Headers
      → Tag
      → Site x h × Option (Response x.Headers)
      → Site x h × Option (Response x.Headers)
  pass_early cfg req ctx tag (site, some answer) = (site, some answer)
  pass_early cfg req ctx tag (site, none) = gate cfg req ctx tag site

  -- the pipeline on a request, from its early stages on
  unfoldable pub inspect_request :
      Config x h → Request h.Uri x.Headers → Tag → Site x h → Site x h × Option (Response x.Headers)
  inspect_request cfg req tag site =
      let ctx : RequestCtx x.Headers = record {
        method = req.method;
        path = h.uri_path req.uri;
        query = h.uri_query req.uri;
        headers = req.headers;
        client = tag.client;
        body = not_buffered;
        normalized = record { path = none; query = none; scratch = [] };
      } in
      let (decision, world, ctx') = evaluate_early (from_config x p now) site.world ctx in
      pass_early cfg req ctx' tag
        (act_on x h decision (is_detect cfg.enforcement) tag (record site { world = world }))

  -- an allowlisted client's request: past the pipeline, both ways
  unfoldable pub bypass :
      Config x h → Request h.Uri x.Headers → Tag → Site x h → Site x h × Response x.Headers
  bypass cfg req tag site =
      relay cfg req none tag.id (λ resp s. (s, resp))
        (tallied allow (record site { metrics = whitelisted site.metrics }))

  unfoldable pub tag_of : Config x h → Request h.Uri x.Headers → IpAddr → Text → Tag
  tag_of cfg req peer id = record {
    client = resolve_client x h cfg req.headers peer;
    method = req.method;
    path = h.uri_path req.uri;
    id = id;
  }

  unfoldable pub handle_inner :
      Config x h
      → Request h.Uri x.Headers
      → IpAddr
      → Text
      → Site x h
      → Site x h × Option (Response x.Headers)
  handle_inner cfg req peer id site =
      let tag = tag_of cfg req peer id in
      let site' = record site { metrics = request site.metrics } in
      if is_whitelisted x p now tag.client.ip
      then answered (bypass cfg req tag site')
      else inspect_request cfg req tag site'

  -- `handle`: the counter of the ids moves when an id is made
  unfoldable pub handle :
      Config x h
      → Request h.Uri x.Headers
      → IpAddr
      → (seed counter : ℕ) → Site x h
      → Site x h × ℕ × Option (Response x.Headers)
  handle cfg req peer seed counter site =
      let (id, counter') = resolve x req.headers cfg.request_id_header seed counter in
      let (site', answer) = handle_inner cfg req peer id site in
      (
        site',
        counter',
        elim answer [
          | none ↦ none
          | some resp ↦
              some
                (record resp { headers = set_request_id x h resp.headers cfg.request_id_header id })
        ],
      )
