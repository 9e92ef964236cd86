-- ===== src/External.antt =====
-- What the program takes from other crates and from the system, as operations on types that stay
-- unknown: http (headers, status codes), ipnet and the address parser, regex, aho-corasick, serde_json,
-- libinjectionrs, and the time-limited maps of moka with the token buckets of governor in them. What a
-- theorem relies on is a hypothesis of its own.
use budu_waf.Prelude.{ℕ, Bool, Option, List, Text, Bytes}
use budu_waf.Common.{IpAddr}
use budu_waf.Json.{Json}

-- crates/budu-ratelimit/src/lib.rs: the value that a counter map holds.
pub record Counter : Type 0 where
  pub count : ℕ
  pub ttl : ℕ

pub record Externals : Type 1 where
  -- http: a header map, looked up by name; `to_str` refuses a value that is no visible ASCII
  pub Headers : Type 0
  pub get : Headers → Text → Option Bytes
  pub to_str : Bytes → Option Text
  pub entries : Headers → List (Text × Bytes)
  pub names : Headers → List Text
  pub count : Headers → ℕ
  pub remove : Headers → Text → Headers
  pub insert : Headers → Text → Bytes → Headers
  pub status_ok : ℕ → Bool
  -- ipnet, and the standard library's address parser and printer
  pub Net : Type 0
  pub net_contains : Net → IpAddr → Bool
  pub net_eq : Net → Net → Bool
  pub parse_net : Text → Option Net
  pub parse_ip : Text → Option IpAddr
  pub show_ip : IpAddr → Text
  pub show_net : Net → Text
  pub host_net : IpAddr → Net
  -- regex
  pub Regex : Type 0
  pub build_regex : Text → Option Regex
  pub is_match : Regex → Text → Bool
  pub regex_set_ok : List Text → Bool
  pub regex_set_matches : List Text → Text → List ℕ
  -- aho-corasick: the index of the literal that the first match belongs to
  pub literals_ok : List Text → Bool
  pub find_literal : List Text → Text → Option ℕ
  -- maxminddb: the bytes of the country code of an address
  pub country_of : IpAddr → Option Bytes
  -- String::from_utf8_lossy, serde_json::from_slice
  pub utf8_lossy : Bytes → Text
  pub parse_json : Bytes → Option Json
  -- libinjectionrs, if the build has it
  pub libinjection : Bool
  pub detect_sqli : Bytes → Bool
  pub detect_xss : Bytes → Bool
  -- moka::sync::Cache of counters, read and written at a time in seconds
  pub Cache : Type 0
  pub new_cache : Cache
  pub cache_get : Cache → Text → ℕ → Option Counter
  pub cache_insert : Cache → Text → Counter → ℕ → Cache
  pub cache_count : Cache → ℕ
  -- the moka map of governor's buckets: take one token of an address, with the rate, the burst and
  -- the idle time of the limiter; a refusal gives the wait in seconds and nanoseconds
  pub Buckets : Type 0
  pub take_token : ℕ → ℕ → ℕ → Buckets → IpAddr → ℕ → Buckets × Option (ℕ × ℕ)
  pub bucket_count : Buckets → ℕ
