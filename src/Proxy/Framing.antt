-- ===== src/Proxy/Framing.antt =====
-- crates/budu-proxy/src/lib.rs: how a request whose body was buffered is sent on.
use budu_waf.Prelude.{
  ℕ, ◌≡◌, refl, ◌∙◌, ap, Option, none, some, ◌∷◌, Bytes, lit, length, Option-cases, ◌⊎◌, inl, inr,
}
use budu_waf.Common.{RequestCtx, buffered, allow}
use budu_waf.External.{Externals}
use budu_waf.Pipeline.{Pipeline, evaluate_late, from_config}
use budu_waf.Proxy.Model.{Http, Config, Request, Response, Site, full}
use budu_waf.Proxy.Handle.{
  Tag, act_on, failed_upstream, on_forward_error, ForwardError, timeout, upstream,
}
use budu_waf.Proxy.Headers.{rewrite_uri}
use budu_waf.Proxy.HopByHop.{HeaderLaws, sanitize_forward_headers-framed}
use budu_waf.Proxy.Respond.{forward}
use budu_waf.Proxy.Serve.{
  is_detect, answered, relay, tallied, finish, replied_with, send_on, with_body,
}
use budu_waf.Proxy.Tally.{
  Same, same, TurnedAway, blocked, limited, Quiet, quiet, Acted, act_on-Acted,
  inspect_response-Quiet,
}

module _ {x : Externals} {h : Http x} where
  -- The upstream was sent nothing more, or one request with these bytes as its body, the number of them
  -- as its Content-Length and no Transfer-Encoding.
  pub data Framed (bytes : Bytes) (a b : Site x h) : Type 0 where
    unsent : b.sent ≡ a.sent → Framed bytes a b
    framed :
        (r : Request h.Uri x.Headers)
        → b.sent ≡ r ∷ a.sent
        → r.body ≡ full bytes
        → x.get r.headers (lit "content-length") ≡ some (h.number_value (length bytes))
        → x.get r.headers (lit "transfer-encoding") ≡ none
        → Framed bytes a b

  Framed-after :
      {bytes : Bytes} {a b c : Site x h} → Framed bytes a b → c.sent ≡ b.sent → Framed bytes a c
  Framed-after (unsent e) k = unsent (k ∙ e)
  Framed-after (framed r e body len chunks) k = framed r (k ∙ e) body len chunks

  Framed-before :
      {bytes : Bytes} {a b c : Site x h} → b.sent ≡ a.sent → Framed bytes b c → Framed bytes a c
  Framed-before k (unsent e) = unsent (e ∙ k)
  Framed-before k (framed r e body len chunks) = framed r (e ∙ ap (λ t. r ∷ t) k) body len chunks

  Quiet-sent : {a b : Site x h} → Quiet a b → b.sent ≡ a.sent
  Quiet-sent (quiet s q l) = s

  Same-sent : {a b : Site x h} → Same a b → b.sent ≡ a.sent
  Same-sent (same s q l b m) = s

  TurnedAway-sent : {a b : Site x h} → TurnedAway a b → b.sent ≡ a.sent
  TurnedAway-sent (blocked s q l b m) = s
  TurnedAway-sent (limited s q l b m) = s

  module _ (laws : HeaderLaws x) (p : Pipeline x) (now : ℕ) (cfg : Config x h) (bytes : Bytes) where
    forward-Framed :
        (req : Request h.Uri x.Headers) (a : Site x h)
        → req.body ≡ full bytes
        → Framed bytes a (forward x h cfg req (some (length bytes)) a).0
    unfolding forward
    forward-Framed req a whole = elim (Option-cases (rewrite_uri x h cfg.upstream req.uri)) [
      | inl e ↦ rw (e, forward) (unsent refl)
      | inr (uri, e) ↦
          let (len, chunks) = sanitize_forward_headers-framed x h laws req.headers (length bytes) in
          rw (e, forward) (framed _ refl whole len chunks)
    ]

    replied_with-Framed :
        (f : Response x.Headers → Site x h → Site x h × Response x.Headers)
        → ((resp : Response x.Headers) (s : Site x h) → Quiet s (f resp s).0)
        → {a : Site x h} (r : Site x h × (ForwardError ⊎ Response x.Headers)) → Framed bytes a r.0
        → Framed bytes a (replied_with x h p now f r).0
    unfolding replied_with on_forward_error failed_upstream
    replied_with-Framed f q (s, inl timeout) t = Framed-after t refl
    replied_with-Framed f q (s, inl upstream) t = Framed-after t refl
    replied_with-Framed f q (s, inr resp) t = Framed-after t (Quiet-sent (q resp s))

    send_on-Framed :
        (req : Request h.Uri x.Headers) (tag : Tag) {a : Site x h}
        (r : Site x h × Option (Response x.Headers))
        → req.body ≡ full bytes
        → r.0.sent ≡ a.sent
        → Framed bytes a (send_on x h p now cfg req (some (length bytes)) tag r).0
    unfolding send_on relay tallied
    send_on-Framed req tag (s, some answer) whole e = unsent e
    send_on-Framed req tag (s, none) whole e = Framed-before {b = tallied x h p now allow s} e (
        replied_with-Framed _ (λ resp s. inspect_response-Quiet p now cfg resp _ tag s) _
          (forward-Framed _ _ whole))

    Acted-sent :
        (a : Site x h) (r : Site x h × Option (Response x.Headers)) → Acted a r → r.0.sent ≡ a.sent
    unfolding Acted
    Acted-sent a r (inl (e, t)) = Same-sent t
    Acted-sent a r (inr (answer, e, t)) = TurnedAway-sent t

    finish-Framed :
        (req : Request h.Uri x.Headers) (ctx : RequestCtx x.Headers) (tag : Tag) (a : Site x h)
        → req.body ≡ full bytes
        → Framed bytes a (finish x h p now cfg req (some (length bytes)) ctx tag a).0
    unfolding finish
    finish-Framed req ctx tag a whole =
        let late = evaluate_late (from_config x p now) a.world ctx in
        let before : Site x h = record a { world = late.1 } in
        send_on-Framed req tag {a = a} (act_on x h late.0 (is_detect cfg.enforcement) tag before)
          whole (Acted-sent before _ (act_on-Acted late.0 (is_detect cfg.enforcement) tag before))

    -- A body that was collected within the limit is sent on whole or not at all: the upstream is sent
    -- nothing more, or one request with just the bytes that were collected as its body, their number
    -- as its Content-Length, whatever the client declared, and no Transfer-Encoding.
    pub with_body-Framed :
        (req : Request h.Uri x.Headers) (ctx : RequestCtx x.Headers) (tag : Tag) (a : Site x h)
        → Framed bytes a (with_body x h p now cfg req ctx tag a (some bytes)).0
    unfolding with_body answered
    with_body-Framed req ctx tag a =
        finish-Framed (record req { body = full bytes }) (record ctx { body = buffered bytes }) tag
          a refl
