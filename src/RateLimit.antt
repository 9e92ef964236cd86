-- ===== src/RateLimit.antt =====
-- crates/budu-ratelimit/src/lib.rs: per-address token buckets, and named counters with a time to live.
pub mod Counters
use budu_waf.Prelude.{
  ℕ, ◌+◌, ◌%◌, ◌^◌, Option, none, some, Text, ◌∷◌, ◌++◌, ltb, ◌==◌, u64_max, saturating_add,
  if◌then◌else◌,
}
use budu_waf.Common.{IpAddr, RequestCtx, ControlFlow, go_on, stop, rate_limited}
use budu_waf.External.{Externals}

-- `max` as Rust spells it, over the native numbers
abbrev pub at_least : ℕ → ℕ → ℕ
at_least a b = if ltb a b then b else a

-- A limiter: its quota, and the handle of its bucket map.
pub record IpRateLimiter : Type 0 where
  pub rps : ℕ
  pub burst : ℕ
  pub ttl : ℕ
  pub store : ℕ

-- `IpRateLimiter::new`, over a fresh handle
unfoldable pub new_limiter : ℕ → ℕ → ℕ → ℕ → IpRateLimiter
new_limiter rps burst ttl_secs store =
    let rate = if rps == 0 then 1 else rps in
    record {
      rps = rate;
      burst = if burst == 0 then rate else burst;
      ttl = at_least ttl_secs 1;
      store = store;
    }

-- The bucket maps of all limiters, by handle.
abbrev pub Stores : Externals → Type 0
Stores x = ℕ → x.Buckets

module _ (x : Externals) where
  abbrev put_store : Stores x → ℕ → x.Buckets → Stores x
  put_store s k b j = if j == k then b else s j

  -- the suggested `Retry-After`
  unfoldable pub retry_after : ℕ × ℕ → ℕ
  retry_after (secs, nanos) = at_least (secs + (if ltb 0 nanos then 1 else 0)) 1 % 2 ^ 32

  unfoldable pub check : IpRateLimiter → Stores x → IpAddr → ℕ → Stores x × Option ℕ
  unfolding retry_after
  check l s ip now =
      let (b, refused) = x.take_token l.rps l.burst l.ttl (s l.store) ip now in
      (put_store s l.store b, elim refused [ none ↦ none | some wait ↦ some (retry_after wait) ])

  -- `RateLimitStage::inspect`
  unfoldable pub inspect :
      IpRateLimiter → Stores x → RequestCtx x.Headers → ℕ → Stores x × ControlFlow
  unfolding check
  inspect l s ctx now =
      let (s', refused) = check l s ctx.client.ip now in
      (s', elim refused [ none ↦ go_on | some secs ↦ stop (rate_limited secs) ])

  -- `CounterStore::key`: the name, U+0001 and the address
  unfoldable pub key : Text → IpAddr → Text
  key name ip = name ++ (1 ∷ x.show_ip ip)

  unfoldable pub get_counter : x.Cache → Text → IpAddr → ℕ → ℕ
  unfolding key
  get_counter c name ip now = elim (x.cache_get c (key name ip) now) [ none ↦ 0 | some k ↦ k.count ]

  -- the new value, and the store with it
  unfoldable pub incr : x.Cache → Text → IpAddr → ℕ → ℕ → ℕ → ℕ × x.Cache
  unfolding get_counter key
  incr c name ip amount window_secs now =
      let count = saturating_add u64_max (get_counter c name ip now) amount in
      (
        count,
        x.cache_insert c (key name ip) (record { count = count; ttl = at_least window_secs 1 }) now,
      )
