-- ===== src/Configuration.antt =====
-- crates/budu-config/src/lib.rs and size.rs: the configuration, its checks, and the sizes in it. Reading the
-- file with serde is left out; what it fills in is in the record. The socket addresses and URIs are those of
-- the standard library and the http crate.
pub mod Usable
pub mod Sizes
use budu_waf.Prelude.{
  ℕ, ◌*◌, ◌/◌, ◌==◌, Bool, true, ◌||◌, not, Option, none, some, List, [], ◌∷◌, Text, lit, eq_text,
  trim, is_empty, is_digit, to_lower, parse_unsigned, u64_max, leb, is_some_and, if◌then◌else◌,
  ◌>>=◌,
}
use budu_waf.Common.{IpAddr, v4, v6}
use budu_waf.External.{Externals}
use budu_waf.Pipeline.{OnError}
use budu_waf.Proxy.Model.{Http, Enforcement}
use budu_waf.Proxy.Model
use budu_waf.Rules.Compile.{ScoringConfig}
use budu_waf.Supervisor.{ReputationConfig, Settings}

pub record SocketAddr : Type 0 where
  pub ip : IpAddr
  pub port : ℕ

-- `is_loopback`: 127.0.0.0/8, and ::1
abbrev pub is_loopback : IpAddr → Bool
is_loopback (v4 n) = n / 16_777_216 == 127
is_loopback (v6 n) = n == 1

-- A size: the digits in front, and the rest.
abbrev pub digits_end : Text → Text × Text
digits_end [] = ([], [])
digits_end (c ∷ s) = if is_digit c then (c ∷ (digits_end s).0, (digits_end s).1) else ([], c ∷ s)

unfoldable pub multiple_of : Text → Option ℕ
multiple_of unit =
    if is_empty unit || eq_text unit (lit "b")
    then some 1
    else if eq_text unit (lit "k") || eq_text unit (lit "kb")
    then some 1_000
    else if eq_text unit (lit "kib")
    then some 1_024
    else if eq_text unit (lit "m") || eq_text unit (lit "mb")
    then some 1_000_000
    else if eq_text unit (lit "mib")
    then some 1_048_576
    else if eq_text unit (lit "g") || eq_text unit (lit "gb")
    then some 1_000_000_000
    else if eq_text unit (lit "gib")
    then some 1_073_741_824
    else none

-- `checked_mul`
abbrev pub checked_mul : ℕ → ℕ → Option ℕ
checked_mul a b = if leb (a * b) u64_max then some (a * b) else none

unfoldable pub parse_size : Text → Option ℕ
unfolding multiple_of
parse_size s =
    if is_empty (trim s)
    then none
    else let (num, unit) = digits_end (trim s) in
      parse_unsigned u64_max num >>= λ n.
      multiple_of (to_lower (trim unit)) >>= λ mult. checked_mul n mult

pub data ConfigError : Type 0 where
  bad_scheme no_host no_client_header no_uri_len no_rate no_timeout not_loopback : ConfigError

module _ (x : Externals) (h : Http x) where
  pub record ServerConfig : Type 0 where
    pub listen : SocketAddr
    pub upstream : h.Uri
    pub client_ip_header : Text
    pub trusted_peer : x.Net
    pub on_error : OnError
    pub enforcement : Enforcement
    pub upstream_timeout_secs : ℕ
    pub timezone : Text
    pub pidfile : Text
    pub request_id_header : Text

  pub record LimitsConfig : Type 0 where
    pub max_uri_len : ℕ
    pub max_header_count : ℕ
    pub max_inspect_body : ℕ

  pub record InspectConfig : Type 0 where
    pub content_types : List Text
    pub response_content_types : List Text

  pub record RateLimitConfig : Type 0 where
    pub requests_per_sec : ℕ
    pub burst : ℕ
    pub ttl_secs : ℕ

  pub record PathsConfig : Type 0 where
    pub rules : Text
    pub signatures : Text

  pub record GeoIpConfig : Type 0 where
    pub enabled : Bool
    pub db_path : Text
    pub allow_countries : List Text
    pub block_countries : List Text

  -- `metrics` has the one field `listen`; the log's settings are only handed to the logger.
  pub record Config : Type 0 where
    pub server : ServerConfig
    pub limits : LimitsConfig
    pub inspect : InspectConfig
    pub ratelimit : RateLimitConfig
    pub reputation : ReputationConfig x
    pub metrics_listen : Option SocketAddr
    pub scoring : ScoringConfig
    pub paths : PathsConfig
    pub geoip : GeoIpConfig

  abbrev pub has_scheme : h.Uri → Text → Bool
  has_scheme uri name = is_some_and (h.uri_scheme uri) (λ s. eq_text s name)

  -- `validate`: the first fault
  unfoldable pub validate : Config → Option ConfigError
  validate c =
      if not
        (has_scheme c.server.upstream (lit "http") || has_scheme c.server.upstream (lit "https"))
      then some bad_scheme
      else if not (is_some_and (h.uri_authority c.server.upstream) (λ a. true))
      then some no_host
      else if is_empty (trim c.server.client_ip_header)
      then some no_client_header
      else if c.limits.max_uri_len == 0
      then some no_uri_len
      else if c.ratelimit.requests_per_sec == 0
      then some no_rate
      else if c.server.upstream_timeout_secs == 0
      then some no_timeout
      else if is_some_and c.metrics_listen (λ addr. not (is_loopback addr.ip))
      then some not_loopback
      else none

  -- what the proxy reads of it, and what the supervisor loads from it
  abbrev pub proxy_config : Config → Model.Config x h
  proxy_config c = record {
    upstream = c.server.upstream;
    client_ip_header = c.server.client_ip_header;
    trusted_peer = c.server.trusted_peer;
    enforcement = c.server.enforcement;
    upstream_timeout_secs = c.server.upstream_timeout_secs;
    request_id_header = c.server.request_id_header;
    max_inspect_body = c.limits.max_inspect_body;
    content_types = c.inspect.content_types;
    response_content_types = c.inspect.response_content_types;
  }

  abbrev pub settings : Config → Settings x
  settings c = record {
    signatures = c.paths.signatures;
    rules = c.paths.rules;
    timezone = c.server.timezone;
    scoring = c.scoring;
    reputation = c.reputation;
  }
