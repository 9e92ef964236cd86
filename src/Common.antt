-- ===== src/Common.antt =====
-- crates/budu-common/src/lib.rs: the vocabulary of the crates. `http::StatusCode` is its number, and
-- `http::HeaderMap` is the type of the http crate, a parameter (External.antt).
pub mod Metrics
use budu_waf.Prelude.{ℕ, Text, Bytes, Option, Bool, true, false}

-- std::net::IpAddr: the 32 or 128 bits of an address.
pub data IpAddr : Type 0 where
  v4 : ℕ → IpAddr
  v6 : ℕ → IpAddr

-- The two bytes of an ISO country code.
pub record CountryCode : Type 0 where
  pub first : ℕ
  pub second : ℕ

pub record ClientInfo : Type 0 where
  pub ip : IpAddr
  pub geo : Option CountryCode

pub data BodyState : Type 0 where
  not_buffered : BodyState
  buffered : Bytes → BodyState
  too_large : BodyState

pub record NormalizedCache : Type 0 where
  pub path : Option Text
  pub query : Option Text
  pub scratch : Bytes

pub record RequestCtx (Headers : Type 0) : Type 0 where
  pub method : Text
  pub path : Text
  pub query : Option Text
  pub headers : Headers
  pub client : ClientInfo
  pub body : BodyState
  pub normalized : NormalizedCache

pub record ResponseCtx (Headers : Type 0) : Type 0 where
  pub status : ℕ
  pub headers : Headers
  pub client : ClientInfo
  pub path : Text
  pub body : BodyState

pub data WafDecision : Type 0 where
  allow : WafDecision
  block : (rule_id : Text) (status : ℕ) (reason : Text) → WafDecision
  rate_limited : (retry_after_secs : ℕ) → WafDecision

unfoldable pub is_allow : WafDecision → Bool
is_allow allow = true
is_allow (block rule_id status reason) = false
is_allow (rate_limited retry) = false

-- `ControlFlow<WafDecision>`
pub data ControlFlow : Type 0 where
  go_on : ControlFlow
  stop : WafDecision → ControlFlow
