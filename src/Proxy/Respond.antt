-- ===== src/Proxy/Respond.antt =====
-- crates/budu-proxy/src/lib.rs: `forward`, and the response phase in `inspect_response`.
use budu_waf.Prelude.{
  ℕ, Bool, ◌&&◌, not, Option, none, some, [], ◌∷◌, Bytes, lit, length, if◌then◌else◌, ◌⊎◌, inl, inr,
}
use budu_waf.Common.{ResponseCtx, not_buffered, buffered}
use budu_waf.External.{Externals}
use budu_waf.Pipeline
use budu_waf.Pipeline.{Pipeline, response_body_needed}
use budu_waf.Proxy.Model.{Http, Config, Request, Response, elapsed, refused, replied, full, Site}
use budu_waf.Proxy.Headers.{
  declared_len_over, response_body_inspectable, sanitize_forward_headers, rewrite_uri, pin_length,
}
use budu_waf.Proxy.Handle.{
  ForwardError, timeout, upstream, Tag, Collected, fits, over, failed, collect_frames, frames_of,
  error_response, act_on, failed_upstream,
}

module _ (x : Externals) (h : Http x) (cfg : Config x h) where
  -- `forward`: the error, or the response
  unfoldable pub forward :
      Request h.Uri x.Headers → Option ℕ → Site x h → Site x h × (ForwardError ⊎ Response x.Headers)
  forward req buffered_len site = elim (rewrite_uri x h cfg.upstream req.uri) [
    | none ↦ (site, inl upstream)
    | some uri ↦
        let out = record req {
          uri = uri;
          headers = sanitize_forward_headers x h req.headers buffered_len;
        } in
        (
          record site { sent = out ∷ site.sent },
          elim (h.send cfg.upstream_timeout_secs out) [
            | elapsed ↦ inl timeout
            | refused ↦ inl upstream
            | replied resp ↦ inr resp
          ],
        )
  ]

module _ (x : Externals) (h : Http x) where
  -- the answer of the response rules, or else the reply
  unfoldable pub unless_blocked :
      Site x h × Option (Response x.Headers) → Response x.Headers → Site x h × Response x.Headers
  unless_blocked (site, some answer) resp = (site, answer)
  unless_blocked (site, none) resp = (site, resp)

module _ (x : Externals) (h : Http x) (p : Pipeline x) (now : ℕ) where
  -- the response rules on a reply, and what `act_on` makes of their decision
  unfoldable pub judge :
      ResponseCtx x.Headers → Bool → Tag → Site x h → Site x h × Option (Response x.Headers)
  judge rctx detecting tag site =
      let (world, decision) = Pipeline.evaluate_response x p now rctx site.world in
      act_on x h decision detecting tag (record site { world = world })

  -- `inspect_response`, when the body is not needed
  unfoldable pub inspect_head :
      Response x.Headers → Bool → Tag → Site x h → Site x h × Response x.Headers
  inspect_head resp detecting tag site =
      let rctx : ResponseCtx x.Headers = record {
        status = resp.status;
        headers = resp.headers;
        client = tag.client;
        path = tag.path;
        body = not_buffered;
      } in
      unless_blocked x h (judge rctx detecting tag site) resp

  -- the buffered reply as it is sent on, its framing pinned to its length
  unfoldable pub reframe : Response x.Headers → Bytes → Response x.Headers
  reframe resp bytes = record resp {
    headers = pin_length x h (length bytes) (x.remove resp.headers (lit "transfer-encoding"));
    body = full bytes;
  }

  -- `inspect_response`, with the body at hand
  unfoldable pub inspect_body :
      Response x.Headers → Bytes → Bool → Tag → Site x h → Site x h × Response x.Headers
  inspect_body resp bytes detecting tag site =
      let rctx : ResponseCtx x.Headers = record {
        status = resp.status;
        headers = resp.headers;
        client = tag.client;
        path = tag.path;
        body = buffered bytes;
      } in
      unless_blocked x h (judge rctx detecting tag site) (reframe resp bytes)

  -- `inspect_response`, after the loop that buffers the body
  unfoldable pub inspect_collected :
      Collected → Response x.Headers → Bool → Tag → Site x h → Site x h × Response x.Headers
  inspect_collected over resp detecting tag site =
      (failed_upstream x h site, error_response x h 502 (lit "response too large to inspect"))
  inspect_collected failed resp detecting tag site =
      (failed_upstream x h site, error_response x h 502 (lit "upstream read error"))
  inspect_collected (fits bytes) resp detecting tag site =
      inspect_body resp bytes detecting tag site

  unfoldable pub inspect_response :
      Config x h → Response x.Headers → Bool → Tag → Site x h → Site x h × Response x.Headers
  inspect_response cfg resp detecting tag site =
      if response_body_needed x p now
        && response_body_inspectable x h resp.headers cfg
        && not (declared_len_over x resp.headers cfg.max_inspect_body)
      then inspect_collected (collect_frames cfg.max_inspect_body [] (frames_of resp.body)) resp
          detecting tag site
      else inspect_head resp detecting tag site
