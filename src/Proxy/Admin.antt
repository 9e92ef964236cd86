-- ===== src/Proxy/Admin.antt =====
-- crates/budu-proxy/src/admin.rs, with the counts that it prints from crates/budu-common/src/lib.rs and
-- crates/budu-pipeline/src/lib.rs: the answers of the admin endpoint.
use budu_waf.Prelude.{ℕ, ◌&&◌, ◌++◌, Text, lit, eq_text, length, show_ℕ, as_bytes, if◌then◌else◌}
use budu_waf.External.{Externals}
use budu_waf.Common.Metrics.{Metrics}
use budu_waf.Rules.Eval
use budu_waf.Rules.Eval.{World}
use budu_waf.RateLimit.{IpRateLimiter}
use budu_waf.Supervisor.{Shared}
use budu_waf.Proxy.Model.{Http, Request, Response, full}

pub record MetricsSnapshot : Type 0 where
  pub requests : ℕ
  pub allowed : ℕ
  pub blocked : ℕ
  pub ratelimited : ℕ
  pub upstream_errors : ℕ
  pub would_block : ℕ
  pub whitelisted : ℕ

unfoldable pub snapshot : Metrics → MetricsSnapshot
snapshot m = record {
  requests = m.requests_total;
  allowed = m.allowed_total;
  blocked = m.blocked_total;
  ratelimited = m.ratelimited_total;
  upstream_errors = m.upstream_errors_total;
  would_block = m.would_block_total;
  whitelisted = m.whitelisted_total;
}

pub record PipelineMetrics : Type 0 where
  pub signatures : ℕ
  pub rules : ℕ
  pub rule_log_matches : ℕ
  pub blocklist : ℕ
  pub allowlist : ℕ
  pub rate_buckets : ℕ
  pub counters : ℕ

-- a type line and a sample
abbrev sample : Text → Text → ℕ → Text
sample name kind value =
    lit "# TYPE "
    ++ (name
        ++ (lit " " ++ (kind ++ (lit "\n" ++ (name ++ (lit " " ++ (show_ℕ value ++ lit "\n")))))))

unfoldable pub render : MetricsSnapshot → PipelineMetrics → Text
render m p =
    lit "# HELP budu_requests_total Total requests seen by B.U.D.U\n"
    ++ (sample (lit "budu_requests_total") (lit "counter") m.requests
        ++ (sample (lit "budu_allowed_total") (lit "counter") m.allowed
            ++ (sample (lit "budu_blocked_total") (lit "counter") m.blocked
                ++ (sample (lit "budu_ratelimited_total") (lit "counter") m.ratelimited
                    ++ (sample (lit "budu_upstream_errors_total") (lit "counter") m.upstream_errors
                        ++ (sample (lit "budu_would_block_total") (lit "counter") m.would_block
                            ++ (sample (lit "budu_whitelisted_total") (lit "counter") m.whitelisted
                                ++ (sample (lit "budu_signatures") (lit "gauge") p.signatures
                                    ++ (sample (lit "budu_rules") (lit "gauge") p.rules
                                        ++ (sample (lit "budu_rule_log_matches_total")
                                              (lit "counter") p.rule_log_matches
                                            ++ (sample (lit "budu_blocklist_entries") (lit "gauge")
                                                  p.blocklist
                                                ++ (sample (lit "budu_allowlist_entries")
                                                      (lit "gauge") p.allowlist
                                                    ++ (sample (lit "budu_rate_buckets")
                                                          (lit "gauge") p.rate_buckets
                                                        ++ sample (lit "budu_counters")
                                                            (lit "gauge") p.counters)))))))))))))

module _ (x : Externals) (h : Http x) where
  -- `Reloadable::metrics`
  unfoldable pub metrics : Shared x → IpRateLimiter → World x → PipelineMetrics
  metrics shared limiter w = record {
    signatures = shared.signatures.count;
    rules = Eval.len x shared.rules;
    rule_log_matches = w.log_hits;
    blocklist = length shared.blocks;
    allowlist = length shared.allowlist;
    rate_buckets = x.bucket_count (w.buckets limiter.store);
    counters = x.cache_count w.counters;
  }

  unfoldable pub text : ℕ → Text → Text → Response x.Headers
  text status body content_type = record {
    status = status;
    headers = x.insert h.no_headers (lit "content-type") (as_bytes content_type);
    body = full (as_bytes body);
  }

  unfoldable pub route :
      Request h.Uri x.Headers → Metrics → Shared x → IpRateLimiter → World x → Response x.Headers
  route req counts shared limiter w =
      if eq_text req.method (lit "GET") && eq_text (h.uri_path req.uri) (lit "/metrics")
      then text 200 (render (snapshot counts) (metrics shared limiter w))
          (lit "text/plain; version=0.0.4")
      else if eq_text req.method (lit "GET") && eq_text (h.uri_path req.uri) (lit "/healthz")
      then text 200 (lit "ok\n") (lit "text/plain")
      else text 404 (lit "not found\n") (lit "text/plain")
