-- ===== src/Common/Metrics.antt =====
-- crates/budu-common/src/lib.rs: the process-wide counters, 64-bit and wrapping.
use budu_waf.Prelude.{ℕ, ◌+◌, ◌%◌, ◌^◌}
use budu_waf.Common.{WafDecision, allow, block, rate_limited}

pub record Metrics : Type 0 where
  pub requests_total : ℕ
  pub allowed_total : ℕ
  pub blocked_total : ℕ
  pub ratelimited_total : ℕ
  pub upstream_errors_total : ℕ
  pub would_block_total : ℕ
  pub whitelisted_total : ℕ

-- `fetch_add(1)` on an `AtomicU64`
pub fetch_add_one : ℕ → ℕ
fetch_add_one n = (n + 1) % 2 ^ 64

unfoldable pub request : Metrics → Metrics
request m = record m { requests_total = fetch_add_one m.requests_total }

unfoldable pub tally : Metrics → WafDecision → Metrics
tally m allow = record m { allowed_total = fetch_add_one m.allowed_total }
tally m (block rule_id status reason) = record m { blocked_total = fetch_add_one m.blocked_total }
tally m (rate_limited retry) = record m { ratelimited_total = fetch_add_one m.ratelimited_total }

unfoldable pub upstream_error : Metrics → Metrics
upstream_error m = record m { upstream_errors_total = fetch_add_one m.upstream_errors_total }

unfoldable pub would_block : Metrics → Metrics
would_block m = record m { would_block_total = fetch_add_one m.would_block_total }

unfoldable pub whitelisted : Metrics → Metrics
whitelisted m = record m { whitelisted_total = fetch_add_one m.whitelisted_total }
