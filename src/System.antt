-- ===== src/System.antt =====
-- crates/budu/src/main.rs and crates/budu-proxy/src/lib.rs: the running program, in which requests are handled
-- while the supervisor replaces what they are judged by. A request is handled in one step; between the
-- stores of a reload, requests may be handled.
pub mod Sound
pub mod Banned
use budu_waf.Prelude.{ℕ, ◌≡◌, true, false, Option, none, some}
use budu_waf.Common.{IpAddr}
use budu_waf.External.{Externals}
use budu_waf.RateLimit.{IpRateLimiter}
use budu_waf.Sanity.{SanityStage}
use budu_waf.GeoIp.{GeoStage}
use budu_waf.Pipeline.{Pipeline, OnError}
use budu_waf.Proxy.Model.{Http, Request, Response, Site}
use budu_waf.Proxy.Serve.{handle}
use budu_waf.Supervisor.{
  Outside, Shared, State, apply, refresh_blocklist, refresh_tick, maintenance_tick, stop,
}
use budu_waf.Configuration.{Config, proxy_config, settings}

-- what the pipeline has for good
pub record Fixed : Type 0 where
  pub geo : Option GeoStage
  pub limiter : IpRateLimiter
  pub sanity : SanityStage
  pub on_error : OnError

-- the pipeline at a moment: its stages read what the supervisor stores
abbrev pub pipeline_of : (x : Externals) → Fixed → Shared x → Pipeline x
pipeline_of x fixed shared = record {
  blocks = shared.blocks;
  allowlist = shared.allowlist;
  geo = fixed.geo;
  limiter = fixed.limiter;
  sanity = fixed.sanity;
  rules = shared.rules;
  signatures = shared.signatures;
  on_error = fixed.on_error;
}

-- `pending` is the configuration of a reload that has stored what it compiled and has yet to fetch the
-- block list and to store the configuration.
pub record System (x : Externals) (h : Http x) : Type 0 where
  pub config : Config x h
  pub supervisor : State x
  pub pending : Option (Config x h)
  pub site : Site x h
  pub counter : ℕ

module _ (x : Externals) (h : Http x) (fixed : Fixed) where
  -- `handle` on the configuration and the pipeline of the moment
  unfoldable pub serve :
      Request h.Uri x.Headers
      → IpAddr
      → (seed now : ℕ) → System x h
      → System x h × Option (Response x.Headers)
  serve req peer seed now s =
      let (site', counter', answer) =
        handle x h (pipeline_of x fixed s.supervisor.shared) now (proxy_config x h s.config) req
          peer seed s.counter s.site in
      (record s { site = site'; counter = counter' }, answer)

  -- the first half of a reload, with the configuration that was read
  unfoldable pub begin_reload : Outside → Config x h → ℕ → ℕ → System x h → System x h
  begin_reload out cfg now store s =
      let sup = s.supervisor in
      record s {
        supervisor = record sup {
          shared = (apply x out (settings x h cfg) now store sup.shared).0;
        };
        pending = some cfg;
      }

  -- the second half
  unfoldable pub end_reload : Outside → Config x h → ℕ → System x h → System x h
  end_reload out cfg now s =
      let sup = s.supervisor in
      record s {
        config = cfg;
        supervisor = record sup {
          settings = settings x h cfg;
          shared = (refresh_blocklist x out (settings x h cfg) now sup.shared).0;
        };
        pending = none;
      }

  -- The loop is at its `select!`.
  pub record Waits (s : System x h) : Type 0 where
    pub idle : s.pending ≡ none
    pub goes_on : s.supervisor.stopped ≡ false

  -- A request, or a part of a round of the supervisor's loop.
  pub data Runs : System x h → System x h → Type 0 where
    requested :
        {s : System x h} (req : Request h.Uri x.Headers) (peer : IpAddr) (seed now : ℕ)
        → Runs s (serve req peer seed now s).0
    reloading :
        {s : System x h} (out : Outside) (cfg : Config x h) (now store : ℕ)
        → Waits s
        → Runs s (begin_reload out cfg now store s)
    reloaded :
        {s : System x h} (out : Outside) (cfg : Config x h) (now : ℕ)
        → s.pending ≡ some cfg
        → Runs s (end_reload out cfg now s)
    refreshed :
        {s : System x h} (out : Outside) (now : ℕ)
        → Waits s
        → s.supervisor.refresh ≡ true
        → Runs s (record s { supervisor = refresh_tick x out now s.supervisor })
    collected :
        {s : System x h} (now : ℕ)
        → Waits s
        → Runs s (record s { supervisor = maintenance_tick x now s.supervisor })
    ended : {s : System x h} → Waits s → Runs s (record s { supervisor = stop x s.supervisor })

  -- any number of them
  pub data RunsTo (s : System x h) : System x h → Type 0 where
    at_once : RunsTo s s
    then_runs : {t u : System x h} → RunsTo s t → Runs t u → RunsTo s u
