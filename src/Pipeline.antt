-- ===== src/Pipeline.antt =====
-- crates/budu-pipeline/src/lib.rs: the stack of stages, each of which may panic, and the pipeline that
-- the configuration builds, over the state that its stages share.
pub mod Policy
pub mod Order
use budu_waf.Prelude.{ℕ, ◌+◌, Bool, Option, none, some, List, [], ◌∷◌, ◌++◌, lit, length}
use budu_waf.Common.{
  RequestCtx, ResponseCtx, IpAddr, WafDecision, ControlFlow, go_on, stop, allow, block,
  rate_limited,
}
use budu_waf.External.{Externals}
use budu_waf.RateLimit
use budu_waf.RateLimit.{IpRateLimiter}
use budu_waf.Parser
use budu_waf.Sanity
use budu_waf.Sanity.{SanityStage}
use budu_waf.Reputation
use budu_waf.Reputation.{BlockEntry}
use budu_waf.GeoIp
use budu_waf.GeoIp.{GeoStage}
use budu_waf.Signatures
use budu_waf.Signatures.{SignatureDb}
use budu_waf.Rules.Model.{RuleSet}
use budu_waf.Rules.Eval.{World, needs_response_body}
use budu_waf.Rules.Stage

pub data OnError : Type 0 where
  fail_closed fail_open : OnError

-- What a stage does under `catch_unwind`: it returns, or it panics; either way the state and the
-- context are as it leaves them.
pub data Ran (S C : Type 0) : Type 0 where
  returned : S → C → ControlFlow → Ran S C
  panicked : S → C → Ran S C

abbrev pub StageFn : Type 0 → Type 0 → Type 0
StageFn S C = S → C → Ran S C

module _ {S C : Type 0} where
  -- `Pipeline::run`
  unfoldable pub run : OnError → List (StageFn S C) → S → C → WafDecision × S × C
  run on_error [] s c = (allow, s, c)
  run on_error (stage ∷ stages) s c = elim (stage s c) [
    | returned s' c' flow ↦ elim flow [
      | go_on ↦ run on_error stages s' c'
      | stop decision ↦ (decision, s', c')
    ]
    | panicked s' c' ↦ elim on_error [
      | fail_closed ↦ (block (lit "pipeline.panic") 500 (lit "inspection error"), s', c')
      | fail_open ↦ run on_error stages s' c'
    ]
  ]

pub record Stages (S C : Type 0) : Type 0 where
  pub early : List (StageFn S C)
  pub late : List (StageFn S C)
  pub on_error : OnError

module _ {S C : Type 0} where
  unfoldable pub evaluate_early : Stages S C → S → C → WafDecision × S × C
  evaluate_early p s c = run p.on_error p.early s c

  unfoldable pub evaluate_late : Stages S C → S → C → WafDecision × S × C
  evaluate_late p s c = run p.on_error p.late s c

  unfoldable pub evaluate : Stages S C → S → C → WafDecision × S × C
  evaluate p s c =
      let (d, s', c') = evaluate_early p s c in
      elim d [
        | allow ↦ evaluate_late p s' c'
        | block id status reason ↦ (block id status reason, s', c')
        | rate_limited secs ↦ (rate_limited secs, s', c')
      ]

  unfoldable pub len : Stages S C → ℕ
  len p = length p.early + length p.late

-- The configured pipeline: what the stages and the supervisor share is read live.
pub record Pipeline (x : Externals) : Type 0 where
  pub blocks : List (BlockEntry x)
  pub allowlist : List (BlockEntry x)
  pub geo : Option GeoStage
  pub limiter : IpRateLimiter
  pub sanity : SanityStage
  pub rules : RuleSet x
  pub signatures : SignatureDb
  pub on_error : OnError

module _ (x : Externals) (p : Pipeline x) (now : ℕ) where
  abbrev pub Step : Type 0
  Step = StageFn (World x) (RequestCtx x.Headers)

  unfoldable pub reputation_stage : Step
  reputation_stage w c = returned w c (Reputation.inspect x p.blocks c now)

  unfoldable pub geo_stage : GeoStage → Step
  geo_stage g w c = let (c', flow) = GeoIp.inspect x g c in returned w c' flow

  unfoldable pub ratelimit_stage : Step
  ratelimit_stage w c =
      let (buckets, flow) = RateLimit.inspect x p.limiter w.buckets c now in
      returned (record w { buckets = buckets }) c flow

  unfoldable pub sanity_stage : Step
  sanity_stage w c = returned w c (Sanity.inspect x p.sanity c)

  unfoldable pub normalize_stage : Step
  normalize_stage w c = let (c', flow) = Parser.inspect c in returned w c' flow

  unfoldable pub rules_stage : Step
  rules_stage w c = let (w', flow) = Stage.inspect x p.rules c now w in returned w' c flow

  unfoldable pub signature_stage : Step
  signature_stage w c = returned w c (Signatures.inspect x p.signatures c)

  -- `Pipeline::from_config`: the order of the stages
  unfoldable pub from_config : Stages (World x) (RequestCtx x.Headers)
  from_config = record {
    early =
        reputation_stage
        ∷ ((elim p.geo [ none ↦ [] | some g ↦ geo_stage g ∷ [] ])
            ++ (ratelimit_stage ∷ sanity_stage ∷ normalize_stage ∷ []));
    late = rules_stage ∷ signature_stage ∷ [];
    on_error = p.on_error;
  }

  unfoldable pub is_whitelisted : IpAddr → Bool
  is_whitelisted ip = Reputation.contains x p.allowlist ip now

  unfoldable pub evaluate_response : ResponseCtx x.Headers → World x → World x × WafDecision
  evaluate_response rctx w = Stage.inspect_response x p.rules rctx now w

  unfoldable pub response_body_needed : Bool
  response_body_needed = needs_response_body x p.rules
