-- ===== src/Proxy/Tally.antt =====
-- crates/budu-proxy/src/lib.rs: what decisions and the response phase do to the counters.
use budu_waf.Prelude.{
  if_elim, ℕ, ◌≡◌, refl, Bool, true, false, Option, none, some, ◌∷◌, Bytes, ◌⊎◌, inl, inr,
}
use budu_waf.Common.{ResponseCtx, WafDecision, allow, block, rate_limited}
use budu_waf.Common.Metrics.{fetch_add_one, tally, upstream_error, would_block}
use budu_waf.External.{Externals}
use budu_waf.Rules.Eval.{World}
use budu_waf.Pipeline.{Pipeline}
use budu_waf.Proxy.Model.{Http, Config, Request, Response, Site}
use budu_waf.Proxy.Handle.{Tag, act_on, answer_now, failed_upstream, Collected, fits, over, failed}
use budu_waf.Proxy.Respond.{
  judge, inspect_head, inspect_body, inspect_response, reframe, inspect_collected, unless_blocked,
}

module _ {x : Externals} {h : Http x} where
  -- The upstream was sent nothing, and the request is in no total of decisions.
  pub data Same (a b : Site x h) : Type 0 where
    same :
        b.sent ≡ a.sent
        → b.metrics.requests_total ≡ a.metrics.requests_total
        → b.metrics.allowed_total ≡ a.metrics.allowed_total
        → b.metrics.blocked_total ≡ a.metrics.blocked_total
        → b.metrics.ratelimited_total ≡ a.metrics.ratelimited_total
        → Same a b

  -- The upstream was sent nothing and no request was counted as allowed, but one as blocked or one as
  -- over its rate.
  pub data TurnedAway (a b : Site x h) : Type 0 where
    blocked :
        b.sent ≡ a.sent
        → b.metrics.requests_total ≡ a.metrics.requests_total
        → b.metrics.allowed_total ≡ a.metrics.allowed_total
        → b.metrics.blocked_total ≡ fetch_add_one a.metrics.blocked_total
        → b.metrics.ratelimited_total ≡ a.metrics.ratelimited_total
        → TurnedAway a b
    limited :
        b.sent ≡ a.sent
        → b.metrics.requests_total ≡ a.metrics.requests_total
        → b.metrics.allowed_total ≡ a.metrics.allowed_total
        → b.metrics.blocked_total ≡ a.metrics.blocked_total
        → b.metrics.ratelimited_total ≡ fetch_add_one a.metrics.ratelimited_total
        → TurnedAway a b

  -- The request and allowed totals, and what the upstream was sent, are as they were.
  pub data Quiet (a b : Site x h) : Type 0 where
    quiet :
        b.sent ≡ a.sent
        → b.metrics.requests_total ≡ a.metrics.requests_total
        → b.metrics.allowed_total ≡ a.metrics.allowed_total
        → Quiet a b

  -- One request was counted as allowed, and the upstream was sent one request, or none if no upstream
  -- URI could be made.
  pub data LetThrough (a b : Site x h) : Type 0 where
    let_through :
        b.metrics.requests_total ≡ a.metrics.requests_total
        → b.metrics.allowed_total ≡ fetch_add_one a.metrics.allowed_total
        → (b.sent ≡ a.sent) ⊎ ((r : Request h.Uri x.Headers) × (b.sent ≡ r ∷ a.sent))
        → LetThrough a b

  unfoldable pub Acted : Site x h → Site x h × Option (Response x.Headers) → Type 0
  Acted a r =
      ((r.1 ≡ none) × Same a r.0)
      ⊎ ((answer : Response x.Headers) × (r.1 ≡ some answer) × TurnedAway a r.0)

  pub act_on-Acted :
      (d : WafDecision) (detecting : Bool) (tag : Tag) (a : Site x h)
      → Acted a (act_on x h d detecting tag a)
  unfolding Acted act_on answer_now tally would_block
  act_on-Acted allow detecting tag a = inl (refl, same refl refl refl refl refl)
  act_on-Acted (block id status reason) true tag a = inl (refl, same refl refl refl refl refl)
  act_on-Acted (block id status reason) false tag a =
      inr (_, refl, blocked refl refl refl refl refl)
  act_on-Acted (rate_limited secs) detecting tag a = inr (_, refl, limited refl refl refl refl refl)

  Acted-Quiet :
      {a : Site x h} (r : Site x h × Option (Response x.Headers)) → Acted a r → Quiet a r.0
  unfolding Acted
  Acted-Quiet r (inl (e, same s q l b m)) = quiet s q l
  Acted-Quiet r (inr (answer, e, blocked s q l b m)) = quiet s q l
  Acted-Quiet r (inr (answer, e, limited s q l b m)) = quiet s q l

  -- with another state of the pipeline
  other_world-Quiet : {a b : Site x h} (w : World x) → Quiet (record a { world = w }) b → Quiet a b
  other_world-Quiet w (quiet s q l) = quiet s q l

  pub other_world-TurnedAway :
      {a b : Site x h} (w : World x) → TurnedAway (record a { world = w }) b → TurnedAway a b
  other_world-TurnedAway w (blocked s q l b m) = blocked s q l b m
  other_world-TurnedAway w (limited s q l b m) = limited s q l b m

  pub other_world-LetThrough :
      {a b : Site x h} (w : World x) → LetThrough (record a { world = w }) b → LetThrough a b
  other_world-LetThrough w (let_through q l s) = let_through q l s

  other_world-Same : {a b : Site x h} (w : World x) → Same (record a { world = w }) b → Same a b
  other_world-Same w (same s q l b m) = same s q l b m

  pub unless_blocked-site :
      (P : Site x h → Type 0) (r : Site x h × Option (Response x.Headers))
      (resp : Response x.Headers)
      → P r.0
      → P (unless_blocked x h r resp).0
  unfolding unless_blocked
  unless_blocked-site P (s, none) resp t = t
  unless_blocked-site P (s, some answer) resp t = t

module _ {x : Externals} {h : Http x} (p : Pipeline x) (now : ℕ) where
  judge-Quiet :
      (rctx : ResponseCtx x.Headers) (detecting : Bool) (tag : Tag) (a : Site x h)
      → Quiet a (judge x h p now rctx detecting tag a).0
  unfolding judge
  judge-Quiet rctx detecting tag a =
      other_world-Quiet _ (Acted-Quiet _ (act_on-Acted _ detecting tag _))

  inspect_head-Quiet :
      (resp : Response x.Headers) (detecting : Bool) (tag : Tag) (a : Site x h)
      → Quiet a (inspect_head x h p now resp detecting tag a).0
  unfolding inspect_head
  inspect_head-Quiet resp detecting tag a =
      unless_blocked-site (Quiet a) _ resp (judge-Quiet _ detecting tag a)

  inspect_body-Quiet :
      (resp : Response x.Headers) (bytes : Bytes) (detecting : Bool) (tag : Tag) (a : Site x h)
      → Quiet a (inspect_body x h p now resp bytes detecting tag a).0
  unfolding inspect_body
  inspect_body-Quiet resp bytes detecting tag a =
      unless_blocked-site (Quiet a) _ (reframe x h p now resp bytes) (judge-Quiet _ detecting tag a)

  inspect_collected-Quiet :
      (c : Collected) (resp : Response x.Headers) (detecting : Bool) (tag : Tag) (a : Site x h)
      → Quiet a (inspect_collected x h p now c resp detecting tag a).0
  unfolding inspect_collected failed_upstream upstream_error
  inspect_collected-Quiet over resp detecting tag a = quiet refl refl refl
  inspect_collected-Quiet failed resp detecting tag a = quiet refl refl refl
  inspect_collected-Quiet (fits bytes) resp detecting tag a =
      inspect_body-Quiet resp bytes detecting tag a

  pub inspect_response-Quiet :
      (cfg : Config x h) (resp : Response x.Headers) (detecting : Bool) (tag : Tag) (a : Site x h)
      → Quiet a (inspect_response x h p now cfg resp detecting tag a).0
  unfolding inspect_response
  inspect_response-Quiet cfg resp detecting tag a =
      if_elim (λ (r : Site x h × Response x.Headers). Quiet a r.0) _
        (inspect_collected-Quiet _ resp detecting tag a) (inspect_head-Quiet resp detecting tag a)
