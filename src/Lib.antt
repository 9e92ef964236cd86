-- ===== src/Lib.antt =====
-- A model of budu-waf, a web application firewall that stands as a reverse proxy in front of one
-- upstream server. A request comes to the proxy (crates/budu-proxy), which gives it an id, finds its
-- client, and runs the pipeline (crates/budu-pipeline) on it: first the early stages on its head (the
-- blocklist, the country policy, the rate limit, the limits of its form, the normalization), then,
-- with the body buffered if it is one to inspect, the late ones (the rules and the signatures). What is
-- allowed is sent upstream, and the reply is judged by the response rules. Stages share counters and
-- buckets, and may panic.
--
-- The files, by the source that they are about:
--   Common, Common/Metrics      crates/budu-common/src/lib.rs: contexts, decisions, counters
--   Parser                      crates/budu-parser/src/lib.rs: normalize_into, decode_into, the stage
--   Clock                       crates/budu-rules/src/ruleset.rs: in_window, weekday, parse_day_mask,
--                               parse_time_window, parse_tz_offset
--   RateLimit                   crates/budu-ratelimit/src/lib.rs: IpRateLimiter, CounterStore
--   Rules/Model, Rules/Error    crates/budu-rules/src/ruleset.rs: the compiled rules and the errors
--   Rules/Condition             the same: compile_cond
--   Rules/Compile               the same: compile_with_tz
--   Rules/Args, Rules/Match     the same: collect_args with its JSON and multipart parsers,
--                               collect_candidates, eval_op and the matching of conditions
--   Rules/Eval, Rules/Stage     the same and stage.rs: evaluate_inner, evaluate_response, RulesStage
--   Rules/Modsec                crates/budu-rules/src/modsec.rs: Tokens and Mapping are its helpers,
--                               Convert is parse_secrule and build_rules, Report is convert
--   Sanity                      crates/budu-pipeline/src/sanity.rs
--   Reputation, GeoIp           crates/budu-reputation/src: lists of networks, the country policy
--   Bans                        crates/budu/src/ban.rs: ban, unban and list, with what a write may do wrong
--   Supervisor                  crates/budu-pipeline/src/lib.rs (Reloadable), the loading of files and
--                               feeds in budu-rules, budu-signatures and budu-reputation, and
--                               supervise in crates/budu/src/main.rs
--   System                      crates/budu/src/main.rs: requests between the rounds of the supervisor,
--                               and a ban from the command to the refusal of a request
--   Configuration               crates/budu-config/src: validate, and the parser of sizes
--   Signatures                  crates/budu-signatures/src: compile, scan, haystack, the built-in set
--   Pipeline                    crates/budu-pipeline/src/lib.rs: run, evaluate, from_config
--   Proxy                       crates/budu-proxy/src: handle, handle_inner, act_on, inspect_response,
--                               forward, the headers, the request ids; Admin is the endpoint of counts
--   Prelude, Json               what Rust's str, slices and integers do, and JSON values
--   External                    other crates, as operations on types that stay unknown
--   Examples                    the theorems at concrete values
--
-- State is passed explicitly: `World` holds what the stages share, `Site` what requests share in the
-- proxy, with the requests that the upstream was sent, and `Disk` is the files that the list commands
-- see. The running program is a relation on `System`, with one constructor for a request and one for each
-- branch of the supervisor's loop, two for a reload, between whose stores requests may come; what
-- files and feeds hold at that moment is an argument (`Outside`), and may differ from step to step.
-- A function that appends to a buffer takes and returns it. Text is a list of code points and bytes are a list of numbers; a machine integer is a
-- natural number or an integer whose saturation or wrap-around is written out. Time is an argument, read
-- once for a request. Loops are structural recursion; the only bounds are the seven rounds of a range of
-- days, which `Clock.Week.add_days-Covers` shows to be enough, and the digits of a number, of which
-- there are no more than the number and one. The upstream's reply is a function of the request.
--
-- The crates http, hyper, ipnet, regex, aho-corasick, maxminddb, serde_json, libinjectionrs, governor and
-- moka are the operations of `Externals` and `Http`; what a theorem relies on is a record of laws among
-- its hypotheses (HeaderLaws, CacheLaws, PrinterLaws, AutomataLaws): header names have no case, and the
-- cache of counters keeps what it is given while there were fewer insertions than it has room for.
--
-- Not modelled: serde and the TOML that it reads and prints, the file system beyond the contents of a
-- file, the HTTP client of remote lists, the pid file and the signal that the list commands send, how
-- they print, the command line, the set-up of logging, the accept loop, tracing
-- other than the audit log, and the interleaving of requests with each other and with the stores of one
-- half of a reload: each of these is one step.
pub mod Prelude
pub mod Common
pub mod Json
pub mod External
pub mod Parser
pub mod Bans
pub mod Clock
pub mod RateLimit
pub mod Rules
pub mod Sanity
pub mod Reputation
pub mod GeoIp
pub mod Signatures
pub mod Pipeline
pub mod Proxy
pub mod Supervisor
pub mod Configuration
pub mod System
pub mod Examples
