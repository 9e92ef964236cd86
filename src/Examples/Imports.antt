-- ===== src/Examples/Imports.antt =====
-- Theorems on the converter, the supervisor and the configuration, at values.
use budu_waf.Prelude.{
  ◌≡◌, ◌||◌, refl, true, false, none, some, is_none, [], ◌∷◌, ◌++◌, Text, lit, all, arith, eq_text,
  show_ℕ, unwrap_or, pos, trim,
}
use budu_waf.Common.{v4}
use budu_waf.Reputation.{build_blocks, perm}
use budu_waf.Signatures.{add_signatures, add_signature, add_pattern, finish, compile, meta_of}
use budu_waf.Pipeline.{fail_closed}
use budu_waf.Rules.Compile.{apply_scoring}
use budu_waf.Rules.Modsec.Report.{convert}
use budu_waf.Rules.Modsec.Imports.{imports, convert-imports}
use budu_waf.Rules.Modsec.Tokens.{tokenize}
use budu_waf.Rules.Modsec.Quoting.{quote_all, tokenize-quote_all}
use budu_waf.Supervisor.{
  Outside, Settings, State, loaded, load_list, load_signatures, load_rules, load_shared, start,
  refresh_blocklist, apply, hangup, compile_all,
}
use budu_waf.Supervisor.Steps.{hangup-apply_fails}
use budu_waf.Proxy.Model.{Enforcement}
use budu_waf.Proxy.Headers.{rewrite_uri}
use budu_waf.Configuration.{Config, validate, checked_mul, parse_size}
use budu_waf.Configuration.Usable.{validate-rewrite_uri}
use budu_waf.Configuration.Sizes.{Suffix, spelled, factor, parse_size-spelled}
use budu_waf.Clock.{parse_tz_offset}
use budu_waf.Examples.Toy.{toy, toy_http}

abbrev secrule : Text
secrule = lit "SecRule ARGS:q|REQUEST_URI \"@rx (a|b)\" \"id:9,deny,t:lowercase\""

convert-imports_example : all (imports toy (pos 0) 0) (convert secrule).rules ≡ true
convert-imports_example = convert-imports toy (pos 0) 0 secrule

tokenize-quote_all_example :
    tokenize (quote_all (lit "a \"b\"" ∷ [] ∷ [])) ≡ lit "a \"b\"" ∷ [] ∷ []
tokenize-quote_all_example = tokenize-quote_all (lit "a \"b\"" ∷ [] ∷ []) refl

abbrev pub outside : Outside
outside = record {
  fail2ban = true;
  remote_blocklist = false;
  read_text = λ p. none;
  read_signatures = λ p. some (
      record { id = lit "s1"; literal = some (lit "evil"); regex = none; status = 403; reason = [] }
      ∷ []);
  read_rules = λ p. none;
  client_ok = true;
  fetch = λ u. none;
}

abbrev configured : Text → Settings toy
configured rules = record {
  signatures = lit "s.toml";
  rules = rules;
  timezone = [];
  scoring = record { threshold = 4; status = 403; msg = lit "too odd" };
  reputation = record {
    blocklist = v4 7 ∷ [];
    blocklist_file = [];
    blocklist_urls = [];
    refresh_secs = 0;
    allowlist = [];
    allowlist_file = [];
  };
}

abbrev pub initial : State toy
initial = record {
  settings = configured [];
  shared = record {
    signatures = record {
      literals = lit "evil" ∷ [];
      literal_meta = record { rule_id = lit "s1"; status = 403; reason = lit "s1" } ∷ [];
      regexes = [];
      regex_meta = [];
      count = 1;
    };
    rules = record {
      rules = [];
      response_rules = [];
      threshold = 4;
      anomaly_status = 403;
      anomaly_msg = lit "too odd";
    };
    blocks = record { net = v4 7; until = none } ∷ [];
    allowlist = [];
  };
  refresh = false;
  stopped = false;
}

pub starts : start toy outside (configured []) 100 0 ≡ loaded initial
unfolding start load_shared load_list load_signatures load_rules refresh_blocklist trim compile
    add_signatures add_signature add_pattern finish parse_tz_offset apply_scoring meta_of
    build_blocks perm
starts = refl

apply_fails : is_none (apply toy outside (configured (lit "r.toml")) 200 1 initial.shared).1 ≡ false
unfolding apply compile_all load_signatures load_rules trim compile add_signatures add_signature
    add_pattern finish parse_tz_offset
apply_fails = refl

hangup-apply_fails_example :
    ((hangup toy outside (some (configured (lit "r.toml"))) 200 1 initial).shared.signatures
      ≡ initial.shared.signatures)
    × ((hangup toy outside (some (configured (lit "r.toml"))) 200 1 initial).shared.rules
        ≡ initial.shared.rules)
    × ((hangup toy outside (some (configured (lit "r.toml"))) 200 1 initial).shared.allowlist
        ≡ initial.shared.allowlist)
    × ((hangup toy outside (some (configured (lit "r.toml"))) 200 1 initial).shared
        ≡ (refresh_blocklist toy outside (configured (lit "r.toml")) 200 initial.shared).0)
    × ((hangup toy outside (some (configured (lit "r.toml"))) 200 1 initial).settings
        ≡ configured (lit "r.toml"))
hangup-apply_fails_example =
    hangup-apply_fails toy outside (configured (lit "r.toml")) 200 1 initial apply_fails

abbrev pub config : Config toy toy_http
config = record {
  server = record {
    listen = record { ip = v4 0; port = 8080 };
    upstream = lit "http://upstream";
    client_ip_header = lit "X-Real-IP";
    trusted_peer = v4 1;
    on_error = fail_closed;
    enforcement = Enforcement.enforce;
    upstream_timeout_secs = 30;
    timezone = [];
    pidfile = [];
    request_id_header = lit "X-Request-Id";
  };
  limits = record { max_uri_len = 100; max_header_count = 20; max_inspect_body = 1000 };
  inspect = record { content_types = []; response_content_types = [] };
  ratelimit = record { requests_per_sec = 5; burst = 10; ttl_secs = 60 };
  reputation = (configured []).reputation;
  metrics_listen = some (record { ip = v4 2_130_706_433; port = 9090 });
  scoring = (configured []).scoring;
  paths = record { rules = []; signatures = [] };
  geoip = record { enabled = false; db_path = []; allow_countries = []; block_countries = [] };
}

valid : validate toy toy_http config ≡ none
unfolding validate trim
valid = refl

validate-rewrite_uri_example :
    (scheme authority : Text) × (eq_text scheme (lit "http") || eq_text scheme (lit "https") ≡ true)
    × (toy_http.uri_scheme config.server.upstream ≡ some scheme)
    × (toy_http.uri_authority config.server.upstream ≡ some authority)
    × (rewrite_uri toy toy_http config.server.upstream (lit "/a")
        ≡ toy_http.build_uri
            (some scheme)
            authority
            (unwrap_or (toy_http.uri_path_and_query (lit "/a")) (lit "/")))
validate-rewrite_uri_example = validate-rewrite_uri toy toy_http config (lit "/a") valid

parse_size-spelled_example :
    parse_size (show_ℕ 512 ++ spelled Suffix.kib) ≡ checked_mul 512 (factor Suffix.kib)
parse_size-spelled_example = parse_size-spelled 512 Suffix.kib (omega arith)
