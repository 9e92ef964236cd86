-- ===== src/Examples/Gate.antt =====
-- Theorems on the stages and on the proxy, at a request that a small pipeline handles.
use budu_waf.Prelude.{
  ℕ, ◌≤◌, ◌≡◌, ◌↔◌, ◌||◌, ◌+◌, refl, some, none, [], ◌∷◌, Text, lit, length, if◌then◌else◌, map,
}
use budu_waf.Common.{RequestCtx, not_buffered, v4, allow, go_on}
use budu_waf.Rules.Eval.{World}
use budu_waf.Pipeline.{Pipeline, fail_closed, fail_open, StageFn, returned, panicked, run}
use budu_waf.Pipeline.Policy.{Passes, tolerate, run-fail_closed, run-fail_open}
use budu_waf.Proxy.Model.{Config, Enforcement, Request, Site, chunk, trailers, full}
use budu_waf.Proxy.Handle.{fits, collect_frames}
use budu_waf.Proxy.Headers.{hop_by_hop, listed, sanitize_forward_headers}
use budu_waf.Proxy.Serve.{handle_inner, tag_of, with_body}
use budu_waf.Proxy.Framing.{Framed, with_body-Framed}
use budu_waf.Proxy.Reqid.{resolve}
use budu_waf.Proxy.Fate.{Fate, Counted, handle_inner-Fate}
use budu_waf.Proxy.Buffer.{Intact, payload, collect_frames-Intact}
use budu_waf.Proxy.HopByHop.{named, sanitize_forward_headers-get}
use budu_waf.Proxy.Ids.{IsToken, resolve-IsToken}
use budu_waf.Common.Metrics
use budu_waf.Examples.Toy.{toy, toy_http, Map, toy-HeaderLaws}

abbrev counting : StageFn ℕ ℕ
counting s c = returned (s + 1) c go_on

abbrev failing : StageFn ℕ ℕ
failing s c = panicked (s + 10) c

run-fail_closed_example :
    (run fail_closed (counting ∷ failing ∷ []) 0 5 ≡ (allow, 11, 5))
    ↔ Passes (counting ∷ failing ∷ []) 0 5 11 5
run-fail_closed_example = run-fail_closed (counting ∷ failing ∷ []) 0 11 5 5

run-fail_open_example :
    run fail_open (counting ∷ failing ∷ []) 0 5
    ≡ run fail_closed (map tolerate (counting ∷ failing ∷ [])) 0 5
run-fail_open_example = run-fail_open (counting ∷ failing ∷ []) 0 5

abbrev pub pipeline : Pipeline toy
pipeline = record {
  blocks = record { net = v4 7; until = some 50 } ∷ [];
  allowlist = [];
  geo = none;
  limiter = record { rps = 1; burst = 1; ttl = 60; store = 0 };
  sanity = record { max_uri_len = 100; max_header_count = 10 };
  rules = record {
    rules = [];
    response_rules = [];
    threshold = 0;
    anomaly_status = 403;
    anomaly_msg = [];
  };
  signatures = record {
    literals = [];
    literal_meta = [];
    regexes = [];
    regex_meta = [];
    count = 0;
  };
  on_error = fail_closed;
}

-- no token is left
abbrev pub world : World toy
world = record { counters = []; buckets = λ store. 0; log_hits = 0 }

abbrev request_from : ℕ → RequestCtx Map
request_from n = record {
  method = lit "GET";
  path = lit "/a";
  query = none;
  headers = [];
  client = record { ip = v4 n; geo = none };
  body = not_buffered;
  normalized = record { path = none; query = none; scratch = [] };
}

abbrev pub config : Config toy toy_http
config = record {
  upstream = lit "http://upstream";
  client_ip_header = lit "x-forwarded-for";
  trusted_peer = v4 1;
  enforcement = Enforcement.enforce;
  upstream_timeout_secs = 30;
  request_id_header = lit "x-request-id";
  max_inspect_body = 8;
  content_types = lit "text/" ∷ [];
  response_content_types = lit "text/html" ∷ [];
}

abbrev pub post : Request Text Map
post = record {
  method = lit "POST";
  uri = lit "/a";
  headers = (lit "content-type", lit "text/plain") ∷ [];
  body = full (lit "hello");
}

abbrev pub site : Site toy toy_http
site = record {
  world = world;
  metrics = record {
    requests_total = 0;
    allowed_total = 0;
    blocked_total = 0;
    ratelimited_total = 0;
    upstream_errors_total = 0;
    would_block_total = 0;
    whitelisted_total = 0;
  };
  audit = [];
  sent = [];
}

handle_inner-Fate_example :
    Fate pipeline 9
      (record site { metrics = Metrics.request site.metrics })
      (handle_inner toy toy_http pipeline 9 config post (v4 8) (lit "id1") site)
    × Counted pipeline 9 site
        (handle_inner toy toy_http pipeline 9 config post (v4 8) (lit "id1") site).0
handle_inner-Fate_example = handle_inner-Fate pipeline 9 config post (v4 8) (lit "id1") site

collect_frames-Intact_example :
    (collect_frames 8 [] (chunk (lit "hel") ∷ chunk (lit "lo") ∷ trailers ∷ [])
      ≡ fits (lit "hello"))
    ↔ (Intact (chunk (lit "hel") ∷ chunk (lit "lo") ∷ trailers ∷ [])
        × (lit "hello" ≡ payload (chunk (lit "hel") ∷ chunk (lit "lo") ∷ trailers ∷ []))
        × (length (lit "hello") ≤ 8))
collect_frames-Intact_example =
    collect_frames-Intact 8 (chunk (lit "hel") ∷ chunk (lit "lo") ∷ trailers ∷ []) (lit "hello")

abbrev headers : Map
headers =
    (lit "connection", lit "X-Secret")
    ∷ (lit "x-secret", lit "1")
    ∷ (lit "content-length", lit "99")
    ∷ (lit "transfer-encoding", lit "chunked")
    ∷ []

sanitize_forward_headers-get_example :
    toy.get (sanitize_forward_headers toy toy_http headers (some 5)) (lit "X-SECRET") ≡ (
      if named (lit "X-SECRET") hop_by_hop || named (lit "X-SECRET") (listed toy headers)
      then none
      else toy.get headers (lit "X-SECRET"))
sanitize_forward_headers-get_example =
    sanitize_forward_headers-get toy toy_http toy-HeaderLaws headers (some 5) (lit "X-SECRET") refl

with_body-Framed_example :
    Framed
      (lit "hello")
      site
      (with_body toy toy_http pipeline 9 config post
        (request_from 8)
        (tag_of toy toy_http pipeline 9 config post (v4 8) (lit "id1"))
        site
        (some (lit "hello"))).0
with_body-Framed_example =
    with_body-Framed toy-HeaderLaws pipeline 9 config (lit "hello") post (request_from 8)
      (tag_of toy toy_http pipeline 9 config post (v4 8) (lit "id1")) site

resolve-IsToken_example :
    IsToken (resolve toy ((lit "x-request-id", lit " edge-1 ") ∷ []) (lit "x-request-id") 77 3).0
resolve-IsToken_example =
    resolve-IsToken toy ((lit "x-request-id", lit " edge-1 ") ∷ []) (lit "x-request-id") 77 3
