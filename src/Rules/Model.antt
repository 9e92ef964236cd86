-- ===== src/Rules/Model.antt =====
-- crates/budu-rules/src/ruleset.rs: the compiled rules. A build has the constructors of libinjection
-- whether or not it has the feature; the compiler makes them only if it has.
use budu_waf.Prelude.{ℕ, Bool, List, Text, ℤ}
use budu_waf.External.{Externals}
use budu_waf.RateLimit.{IpRateLimiter}
use budu_waf.Clock.{DayMask}

pub data Field : Type 0 where
  method path query uri : Field
  header : Text → Field
  body ip country status : Field
  resp_header : Text → Field
  resp_body : Field
  counter arg : Text → Field
  arg_names args_count : Field
  cookie : Text → Field
  cookie_names args headers header_names cookies time day : Field

pub data Op (x : Externals) : Type 0 where
  eq ne contains starts_with ends_with : Text → Op x
  regex : x.Regex → Op x
  cidr : x.Net → Op x
  one_of : List Text → Op x
  gt lt ge le : ℤ → Op x
  detect_sqli detect_xss : Op x
  time_between : (start end : ℕ) (offset_min : ℤ) → Op x
  day_of_week : (mask : DayMask) (offset_min : ℤ) → Op x

pub data Transform : Type 0 where
  lowercase uppercase url_decode compress_ws remove_nulls trimmed : Transform

pub record CompiledCond (x : Externals) : Type 0 where
  pub field : Field
  pub op : Op x
  pub negate : Bool
  pub transforms : List Transform

pub data Action : Type 0 where
  block : (status : ℕ) (msg : Text) → Action
  allow log : Action
  rate_limit : IpRateLimiter → Action
  score : ℕ → Action
  incr : (counter : Text) (amount window_secs : ℕ) → Action

pub record CompiledRule (x : Externals) : Type 0 where
  pub id : Text
  pub action : Action
  pub conds : List (CompiledCond x)

pub record RuleSet (x : Externals) : Type 0 where
  pub rules : List (CompiledRule x)
  pub response_rules : List (CompiledRule x)
  pub threshold : ℕ
  pub anomaly_status : ℕ
  pub anomaly_msg : Text

pub data Outcome : Type 0 where
  blocked : (rule_id : Text) (status : ℕ) (reason : Text) → Outcome
  allowed : (rule_id : Text) → Outcome
  throttled : (rule_id : Text) (retry_after_secs : ℕ) → Outcome
