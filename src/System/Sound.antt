-- ===== src/System/Sound.antt =====
-- crates/budu/src/main.rs and crates/budu-proxy/src/lib.rs: what holds of the running program whatever
-- requests are served between whatever reloads.
use budu_waf.Prelude.{ℕ, ◌≡◌, refl, sym, some, [], All}
use mathlib.Core.Path.{subst}
use budu_waf.Common.{IpAddr}
use budu_waf.External.{Externals}
use budu_waf.Proxy.Model.{Http, Request}
use budu_waf.Proxy.HopByHop.{HeaderLaws}
use budu_waf.Proxy.Reqid.{resolve}
use budu_waf.Proxy.Serve.{handle}
use budu_waf.Proxy.Sent.{IsClean, OnlyClean, handle_inner-OnlyClean}
use budu_waf.Supervisor.{
  loaded, Outside, start, hangup, refresh_tick, maintenance_tick, run_maintenance, stop,
}
use budu_waf.Supervisor.Reload.{RulesFit, apply-RulesFit}
use budu_waf.Supervisor.Steps.{refresh-RulesFit, start-RulesFit, start-settings}
use budu_waf.Configuration.{Config, proxy_config, settings}
use budu_waf.System.{
  Fixed, pipeline_of, System, serve, begin_reload, end_reload, Runs, requested, reloading, reloaded,
  refreshed, collected, ended, RunsTo, at_once, then_runs,
}

module _ {x : Externals} {h : Http x} where
  -- The rules in force are well formed, no request with one of the eight fixed hop-by-hop headers
  -- was sent to the upstream,
  -- and the supervisor and the proxy go by one configuration.
  pub record IsSound (s : System x h) : Type 0 where
    pub rules_fit : RulesFit x s.supervisor.shared.rules
    pub clean : OnlyClean s.site
    pub in_step : s.supervisor.settings ≡ settings x h s.config

  -- A system as it is when the proxy begins to listen.
  pub record IsFresh (out : Outside) (now store : ℕ) (s : System x h) : Type 0 where
    pub started : start x out (settings x h s.config) now store ≡ loaded s.supervisor
    pub nothing_sent : s.site.sent ≡ []

  module _ (laws : HeaderLaws x) (fixed : Fixed) where
    serve-OnlyClean :
        (req : Request h.Uri x.Headers) (peer : IpAddr) (seed now : ℕ) (s : System x h)
        → OnlyClean s.site
        → OnlyClean (serve x h fixed req peer seed now s).0.site
    unfolding serve handle
    serve-OnlyClean req peer seed now s k =
        handle_inner-OnlyClean laws (proxy_config x h s.config)
          (pipeline_of x fixed s.supervisor.shared) now req peer
          (resolve x req.headers s.config.server.request_id_header seed s.counter).0 s.site k

    Runs-IsSound : (s t : System x h) → Runs x h fixed s t → IsSound s → IsSound t
    unfolding serve begin_reload end_reload refresh_tick maintenance_tick run_maintenance stop
    Runs-IsSound s _ (requested req peer seed now) k = record {
      rules_fit = k.rules_fit;
      clean = serve-OnlyClean req peer seed now s k.clean;
      in_step = k.in_step;
    }
    Runs-IsSound s _ (reloading out cfg now store w) k = record {
      rules_fit = apply-RulesFit x out (settings x h cfg) now store s.supervisor.shared k.rules_fit;
      clean = k.clean;
      in_step = k.in_step;
    }
    Runs-IsSound s _ (reloaded out cfg now e) k = record {
      rules_fit = refresh-RulesFit x out (settings x h cfg) now s.supervisor.shared k.rules_fit;
      clean = k.clean;
      in_step = refl;
    }
    Runs-IsSound s _ (refreshed out now w e) k = record {
      rules_fit = refresh-RulesFit x out s.supervisor.settings now s.supervisor.shared k.rules_fit;
      clean = k.clean;
      in_step = k.in_step;
    }
    Runs-IsSound s _ (collected now w) k = record {
      rules_fit = k.rules_fit;
      clean = k.clean;
      in_step = k.in_step;
    }
    Runs-IsSound s _ (ended w) k = record {
      rules_fit = k.rules_fit;
      clean = k.clean;
      in_step = k.in_step;
    }

    kept : (s t : System x h) → RunsTo x h fixed s t → IsSound s → IsSound t
    kept s _ at_once k = k
    kept s u (then_runs {t} before step) k = Runs-IsSound t u step (kept s t before k)

  fresh-OnlyClean : (s : System x h) → s.site.sent ≡ [] → OnlyClean s.site
  fresh-OnlyClean s e = record { all_clean = subst (All (λ r. IsClean x r.headers)) (sym e) tt }

  fresh-IsSound :
      (out : Outside) (now store : ℕ) (s : System x h) → IsFresh out now store s → IsSound s
  fresh-IsSound out now store s f = record {
    rules_fit = start-RulesFit x out (settings x h s.config) now store s.supervisor f.started;
    clean = fresh-OnlyClean s f.nothing_sent;
    in_step = start-settings x out (settings x h s.config) now store f.started;
  }

  -- With no request between them, the two halves of a reload make the round of the supervisor's loop.
  end_reload-begin_reload :
      (fixed : Fixed) (out : Outside) (cfg : Config x h) (now store : ℕ) (s : System x h)
      → (end_reload x h fixed out cfg now (begin_reload x h fixed out cfg now store s)).supervisor
        ≡ hangup x out (some (settings x h cfg)) now store s.supervisor
  unfolding end_reload begin_reload hangup
  end_reload-begin_reload fixed out cfg now store s = refl

  -- From when the proxy begins to listen, whatever requests come before, between and after whatever
  -- reloads, refreshes, maintenance and the end of the supervisor, also while a reload is half done:
  -- the rules in force are well formed, no request that the upstream was ever sent has one of the
  -- eight fixed hop-by-hop headers, and the supervisor and the proxy go by one configuration. The
  -- headers keep the laws of a header map, whose names have no case.
  pub RunsTo-IsSound :
      HeaderLaws x
      → (fixed : Fixed) (out : Outside) (now store : ℕ) (s t : System x h) → IsFresh out now store s
      → RunsTo x h fixed s t
      → IsSound t
  RunsTo-IsSound laws fixed out now store s t f r =
      kept laws fixed s t r (fresh-IsSound out now store s f)
