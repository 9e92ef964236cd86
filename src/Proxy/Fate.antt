-- ===== src/Proxy/Fate.antt =====
-- crates/budu-proxy/src/lib.rs: what becomes of a request, in the counters and towards the upstream.
use budu_waf.Prelude.{
  if_elim, ℕ, ◌≡◌, refl, ap, ◌∙◌, Option, none, some, ◌∷◌, Text, Bytes, Option-cases, ◌⊎◌, inl, inr,
}
use budu_waf.Common.{RequestCtx, allow, IpAddr}
use budu_waf.Common.Metrics.{fetch_add_one, tally, upstream_error, whitelisted, request}
use budu_waf.External.{Externals}
use budu_waf.Pipeline.{Pipeline}
use budu_waf.Proxy.Model.{Http, Config, Request, Response, Site}
use budu_waf.Proxy.Handle.{
  Tag, act_on, answer_now, failed_upstream, on_forward_error, ForwardError, timeout, upstream,
}
use budu_waf.Proxy.Headers.{rewrite_uri}
use budu_waf.Proxy.Serve.{
  relay, tallied, finish, refuse_body, answered, gate, inspect_request, bypass, handle_inner,
  replied_with, send_on, with_body, pass_early,
}
use budu_waf.Proxy.Respond.{forward}
use budu_waf.Proxy.Tally.{
  Same, same, TurnedAway, blocked, limited, Quiet, quiet, LetThrough, let_through, Acted,
  act_on-Acted, other_world-TurnedAway, other_world-LetThrough, inspect_response-Quiet,
}

module _ {x : Externals} {h : Http x} where
  -- What happens to the counters and the upstream while a request is sent on.
  pub data Relayed (a b : Site x h) : Type 0 where
    relayed :
        b.metrics.requests_total ≡ a.metrics.requests_total
        → b.metrics.allowed_total ≡ a.metrics.allowed_total
        → (b.sent ≡ a.sent) ⊎ ((r : Request h.Uri x.Headers) × (b.sent ≡ r ∷ a.sent))
        → Relayed a b

  Relayed-Quiet : {a b c : Site x h} → Relayed a b → Quiet b c → Relayed a c
  Relayed-Quiet (relayed q l (inl s)) (quiet s' q' l') = relayed (q' ∙ q) (l' ∙ l) (inl (s' ∙ s))
  Relayed-Quiet (relayed q l (inr (r, s))) (quiet s' q' l') =
      relayed (q' ∙ q) (l' ∙ l) (inr (r, s' ∙ s))

  Same-LetThrough : {a b c : Site x h} → Same a b → LetThrough b c → LetThrough a c
  Same-LetThrough (same s q l b m) (let_through q' l' (inl s')) =
      let_through (q' ∙ q) (l' ∙ ap fetch_add_one l) (inl (s' ∙ s))
  Same-LetThrough (same s q l b m) (let_through q' l' (inr (r, s'))) =
      let_through (q' ∙ q) (l' ∙ ap fetch_add_one l) (inr (r, s' ∙ ap (λ t. r ∷ t) s))

  Same-TurnedAway : {a b c : Site x h} → Same a b → TurnedAway b c → TurnedAway a c
  Same-TurnedAway (same s q l b m) (blocked s' q' l' b' m') =
      blocked (s' ∙ s) (q' ∙ q) (l' ∙ l) (b' ∙ ap fetch_add_one b) (m' ∙ m)
  Same-TurnedAway (same s q l b m) (limited s' q' l' b' m') =
      limited (s' ∙ s) (q' ∙ q) (l' ∙ l) (b' ∙ b) (m' ∙ ap fetch_add_one m)

  forward-Relayed :
      (cfg : Config x h) (req : Request h.Uri x.Headers) (len : Option ℕ) (a : Site x h)
      → Relayed a (forward x h cfg req len a).0
  unfolding forward
  forward-Relayed cfg req len a = elim (Option-cases (rewrite_uri x h cfg.upstream req.uri)) [
    | inl e ↦ rw (e, forward) (relayed refl refl (inl refl))
    | inr (uri, e) ↦ rw (e, forward) (relayed refl refl (inr (_, refl)))
  ]

module _ {x : Externals} {h : Http x} (p : Pipeline x) (now : ℕ) where
  replied_with-Relayed :
      (f : Response x.Headers → Site x h → Site x h × Response x.Headers)
      → ((resp : Response x.Headers) (s : Site x h) → Quiet s (f resp s).0)
      → {a : Site x h} (r : Site x h × (ForwardError ⊎ Response x.Headers)) → Relayed a r.0
      → Relayed a (replied_with x h p now f r).0
  unfolding replied_with on_forward_error failed_upstream upstream_error
  replied_with-Relayed f q (s, inl timeout) (relayed t l e) = relayed t l e
  replied_with-Relayed f q (s, inl upstream) (relayed t l e) = relayed t l e
  replied_with-Relayed f q (s, inr resp) t = Relayed-Quiet t (q resp s)

  tallied-LetThrough : {a b : Site x h} → Relayed (tallied x h p now allow a) b → LetThrough a b
  unfolding tallied tally
  tallied-LetThrough (relayed q l s) = let_through q l s

  send_on-Fate :
      (cfg : Config x h) (req : Request h.Uri x.Headers) (len : Option ℕ) (tag : Tag) {a : Site x h}
      (r : Site x h × Option (Response x.Headers))
      → Acted a r
      → TurnedAway a (send_on x h p now cfg req len tag r).0
        ⊎ LetThrough a (send_on x h p now cfg req len tag r).0
  unfolding send_on relay Acted
  send_on-Fate cfg req len tag (s, some answer) (inr (r, e, t)) = inl t
  send_on-Fate cfg req len tag (s, some answer) (inl (e, t)) = cc
  send_on-Fate cfg req len tag (s, none) (inr (r, e, t)) = cc
  send_on-Fate cfg req len tag (s, none) (inl (e, t)) = inr (
      Same-LetThrough t (
        tallied-LetThrough (
          replied_with-Relayed _ (λ resp s. inspect_response-Quiet p now cfg resp _ tag s) _
            (forward-Relayed cfg _ len _))))

  abbrev pub Fate : Site x h → Site x h × Option (Response x.Headers) → Type 0
  Fate a r =
      (answer : Response x.Headers) × (r.1 ≡ some answer) × (TurnedAway a r.0 ⊎ LetThrough a r.0)

  finish-Fate :
      (cfg : Config x h) (req : Request h.Uri x.Headers) (len : Option ℕ)
      (ctx : RequestCtx x.Headers) (tag : Tag) (a : Site x h)
      → Fate a (answered x h p now (finish x h p now cfg req len ctx tag a))
  unfolding finish answered
  finish-Fate cfg req len ctx tag a = (
    _,
    refl,
    elim (send_on-Fate cfg req len tag _ (act_on-Acted _ _ tag _)) [
      | inl t ↦ inl (other_world-TurnedAway _ t)
      | inr t ↦ inr (other_world-LetThrough _ t)
    ],
  )

  refuse_body-Fate : (tag : Tag) (a : Site x h) → Fate a (refuse_body x h p now tag a)
  unfolding refuse_body act_on answer_now tally
  refuse_body-Fate tag a = (_, refl, inl (blocked refl refl refl refl refl))

  with_body-Fate :
      (cfg : Config x h) (req : Request h.Uri x.Headers) (ctx : RequestCtx x.Headers) (tag : Tag)
      (a : Site x h) (bytes : Option Bytes)
      → Fate a (with_body x h p now cfg req ctx tag a bytes)
  unfolding with_body
  with_body-Fate cfg req ctx tag a none = refuse_body-Fate tag a
  with_body-Fate cfg req ctx tag a (some bytes) = finish-Fate cfg _ _ _ tag a

  gate-Fate :
      (cfg : Config x h) (req : Request h.Uri x.Headers) (ctx : RequestCtx x.Headers) (tag : Tag)
      (a : Site x h)
      → Fate a (gate x h p now cfg req ctx tag a)
  unfolding gate
  gate-Fate cfg req ctx tag a =
      if_elim (Fate a) _
        (if_elim (Fate a) _ (refuse_body-Fate tag a) (with_body-Fate cfg req ctx tag a _))
        (finish-Fate cfg req none ctx tag a)

  Same-Fate :
      {a b : Site x h} (r : Site x h × Option (Response x.Headers)) → Same a b → Fate b r → Fate a r
  Same-Fate r t (answer, e, inl d) = (answer, e, inl (Same-TurnedAway t d))
  Same-Fate r t (answer, e, inr d) = (answer, e, inr (Same-LetThrough t d))

  pass_early-Fate :
      (cfg : Config x h) (req : Request h.Uri x.Headers) (ctx : RequestCtx x.Headers) (tag : Tag)
      (a : Site x h) (r : Site x h × Option (Response x.Headers))
      → Acted a r
      → Fate a (pass_early x h p now cfg req ctx tag r)
  unfolding pass_early Acted
  pass_early-Fate cfg req ctx tag a (s, some answer) (inr (r, e, t)) = (answer, refl, inl t)
  pass_early-Fate cfg req ctx tag a (s, some answer) (inl (e, t)) = absurd (cc)
  pass_early-Fate cfg req ctx tag a (s, none) (inr (r, e, t)) = absurd (cc)
  pass_early-Fate cfg req ctx tag a (s, none) (inl (e, t)) =
      Same-Fate _ t (gate-Fate cfg req ctx tag s)

  inspect_request-Fate :
      (cfg : Config x h) (req : Request h.Uri x.Headers) (tag : Tag) (a : Site x h)
      → Fate a (inspect_request x h p now cfg req tag a)
  unfolding inspect_request
  inspect_request-Fate cfg req tag a =
      Same-Fate _ (same refl refl refl refl refl)
        (pass_early-Fate cfg req _ tag _ _ (act_on-Acted _ _ tag _))

  bypass-Fate :
      (cfg : Config x h) (req : Request h.Uri x.Headers) (tag : Tag) (a : Site x h)
      → Fate a (answered x h p now (bypass x h p now cfg req tag a))
  unfolding bypass answered relay whitelisted
  bypass-Fate cfg req tag a = (
    _,
    refl,
    inr (
        Same-LetThrough (same refl refl refl refl refl) (
          tallied-LetThrough (
            replied_with-Relayed _ (λ resp s. quiet refl refl refl) _
              (forward-Relayed cfg _ none _)))),
  )

  -- the counter of requests has moved by one
  pub Counted : Site x h → Site x h → Type 0
  Counted a b = b.metrics.requests_total ≡ fetch_add_one a.metrics.requests_total

  Fate-Counted :
      (a : Site x h) (r : Site x h × Option (Response x.Headers))
      → Fate (record a { metrics = request a.metrics }) r
      → Counted a r.0
  unfolding Counted request
  Fate-Counted a r (answer, e, inl (blocked s q l b m)) = q
  Fate-Counted a r (answer, e, inl (limited s q l b m)) = q
  Fate-Counted a r (answer, e, inr (let_through q l s)) = q

  arrived-Fate :
      (cfg : Config x h) (req : Request h.Uri x.Headers) (peer : IpAddr) (id : Text) (a : Site x h)
      → Fate (record a { metrics = request a.metrics }) (handle_inner x h p now cfg req peer id a)
  unfolding handle_inner
  arrived-Fate cfg req peer id a =
      if_elim (Fate (record a { metrics = request a.metrics })) _ (bypass-Fate cfg req _ _)
        (inspect_request-Fate cfg req _ _)

  -- Handling a request always ends in an answer, and counts one request. Either the upstream is sent
  -- nothing, no request is counted as allowed, and exactly one of the totals of blocked and of limited
  -- requests goes up by one; or one request is counted as allowed and the upstream is sent one request,
  -- or none if its URI cannot be made.
  pub handle_inner-Fate :
      (cfg : Config x h) (req : Request h.Uri x.Headers) (peer : IpAddr) (id : Text) (a : Site x h)
      → Fate (record a { metrics = request a.metrics }) (handle_inner x h p now cfg req peer id a)
        × Counted a (handle_inner x h p now cfg req peer id a).0
  handle_inner-Fate cfg req peer id a =
      (arrived-Fate cfg req peer id a, Fate-Counted a _ (arrived-Fate cfg req peer id a))
