-- ===== src/Proxy/Model.antt =====
-- crates/budu-proxy/src/lib.rs: requests, responses and the state of a proxy, and what the http and
-- hyper crates give it.
use budu_waf.Prelude.{ℕ, Bool, Option, List, Text, Bytes}
use budu_waf.Common.{IpAddr}
use budu_waf.Common.Metrics.{Metrics}
use budu_waf.External.{Externals}
use budu_waf.Rules.Eval.{World}

-- A frame of a streamed body: data, trailers, or the error that ends the stream.
pub data Frame : Type 0 where
  chunk : Bytes → Frame
  trailers : Frame
  broken : Frame

-- `RespBody`: a fixed buffer, or a stream.
pub data Body : Type 0 where
  full : Bytes → Body
  stream : List Frame → Body

-- `http::Request` with its `Parts`, and `http::Response`
pub record Request (Uri Headers : Type 0) : Type 0 where
  pub method : Text
  pub uri : Uri
  pub headers : Headers
  pub body : Body

pub record Response (Headers : Type 0) : Type 0 where
  pub status : ℕ
  pub headers : Headers
  pub body : Body

-- What the upstream client gives within the time allowed.
pub data Reply (Headers : Type 0) : Type 0 where
  elapsed : Reply Headers
  refused : Reply Headers
  replied : Response Headers → Reply Headers

-- The http crate's URIs, header names and header values, http_body_util's bounded collection of a
-- body, and hyper's client.
pub record Http (x : Externals) : Type 1 where
  pub Uri : Type 0
  pub uri_path : Uri → Text
  pub uri_query : Uri → Option Text
  pub uri_scheme : Uri → Option Text
  pub uri_authority : Uri → Option Text
  pub uri_path_and_query : Uri → Option Text
  pub build_uri : Option Text → Text → Text → Option Uri
  pub header_name : Text → Option Text
  pub header_value : Text → Option Bytes
  pub number_value : ℕ → Bytes
  pub no_headers : x.Headers
  pub collect_limited : Body → ℕ → Option Bytes
  pub send : ℕ → Request Uri x.Headers → Reply x.Headers

-- crates/budu-config/src/lib.rs
pub data Enforcement : Type 0 where
  enforce detect : Enforcement

-- The fields of `Config` that the proxy reads.
pub record Config (x : Externals) (h : Http x) : Type 0 where
  pub upstream : h.Uri
  pub client_ip_header : Text
  pub trusted_peer : x.Net
  pub enforcement : Enforcement
  pub upstream_timeout_secs : ℕ
  pub request_id_header : Text
  pub max_inspect_body : ℕ
  pub content_types : List Text
  pub response_content_types : List Text

-- A record of the audit log.
pub record Audit : Type 0 where
  pub client_ip : IpAddr
  pub method : Text
  pub path : Text
  pub rule_id : Text
  pub status : ℕ
  pub enforced : Bool
  pub request_id : Text

-- What requests share: the state of the pipeline, the counters, the audit log and the requests that
-- the upstream server was sent, both with the latest first.
pub record Site (x : Externals) (h : Http x) : Type 0 where
  pub world : World x
  pub metrics : Metrics
  pub audit : List Audit
  pub sent : List (Request h.Uri x.Headers)
