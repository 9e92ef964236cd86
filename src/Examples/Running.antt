-- ===== src/Examples/Running.antt =====
-- Theorems on the running program and on detection mode, at a request and a reload.
use budu_waf.Prelude.{◌≡◌, trim, arith, refl, some, none, [], lit}
use budu_waf.Supervisor.{Outside}
use budu_waf.Common.{v4}
use budu_waf.Proxy.Model.{Config, Enforcement}
use budu_waf.Proxy.Serve.{handle_inner}
use budu_waf.Proxy.Answers.{Answers}
use budu_waf.Proxy.Detect.{OnlyLimits, handle_inner-OnlyLimits}
use budu_waf.Configuration
use budu_waf.Reputation.{contains}
use budu_waf.Proxy.Headers.{resolve_client}
use budu_waf.System.{
  Fixed, System, serve, begin_reload, end_reload, RunsTo, at_once, then_runs, requested, reloading,
  reloaded,
}
use budu_waf.System.Sound.{IsSound, RunsTo-IsSound}
use budu_waf.System.Banned.{IsRefused, banned-IsRefused}
use budu_waf.Bans.Loading.{text_of}
use budu_waf.Bans.{Disk, no_fault, ban}
use budu_waf.Examples.Toy.{toy, toy_http, toy-HeaderLaws}
use budu_waf.Examples.Lists.{net_c, disk, tmp_of, printed, two_minutes, good_target}
use budu_waf.Examples.Gate.{pipeline, config, post, site, world}
use budu_waf.Examples.Imports.{outside, initial, starts}
use budu_waf.Examples.Imports

abbrev detecting : Config toy toy_http
detecting = record config { enforcement = Enforcement.detect }

handle_inner-OnlyLimits_example :
    Answers pipeline 9 detecting
      (handle_inner toy toy_http pipeline 9 detecting post (v4 7) (lit "id1") site)
    × OnlyLimits (handle_inner toy toy_http pipeline 9 detecting post (v4 7) (lit "id1") site).0
handle_inner-OnlyLimits_example =
    handle_inner-OnlyLimits pipeline 9 detecting refl post (v4 7) (lit "id1") site
      (record { limits = refl })

abbrev fixed : Fixed
fixed = record {
  geo = none;
  limiter = pipeline.limiter;
  sanity = pipeline.sanity;
  on_error = pipeline.on_error;
}

abbrev started : Configuration.Config toy toy_http
started = record Imports.config { paths = record { rules = []; signatures = lit "s.toml" } }

abbrev reread : Configuration.Config toy toy_http
reread = Imports.config

abbrev listening : System toy toy_http
listening = record {
  config = started;
  supervisor = initial;
  pending = none;
  site = record site { world = record world { buckets = λ store. 5 } };
  counter = 0;
}

-- a request in the middle of a reload
abbrev halfway : System toy toy_http
halfway = begin_reload toy toy_http fixed outside reread 200 1 listening

abbrev served : System toy toy_http
served = (serve toy toy_http fixed post (v4 8) 5 201 halfway).0

reloads_meanwhile :
    RunsTo toy toy_http fixed listening (end_reload toy toy_http fixed outside reread 202 served)
unfolding begin_reload serve
reloads_meanwhile =
    then_runs
      (then_runs
        (then_runs at_once
          (reloading outside reread 200 1 (record { idle = refl; goes_on = refl })))
        (requested post (v4 8) 5 201))
      (reloaded outside reread 202 refl)

RunsTo-IsSound_example : IsSound (end_reload toy toy_http fixed outside reread 202 served)
RunsTo-IsSound_example =
    RunsTo-IsSound toy-HeaderLaws fixed outside 100 0 listening _
      (record { started = starts; nothing_sent = refl }) reloads_meanwhile

abbrev listed_config : Configuration.Config toy toy_http
listed_config = record reread {
  reputation = record {
    blocklist = [];
    blocklist_file = lit "list";
    blocklist_urls = [];
    refresh_secs = 0;
    allowlist = [];
    allowlist_file = [];
  };
}

abbrev after_ban : Disk
after_ban = (ban toy tmp_of (lit "list") net_c (some (lit "2m")) 1000 no_fault disk).0

abbrev rereads : Outside
rereads = record outside { read_text = λ p. text_of (after_ban p) }

named_plainly : trim (lit "list") ≡ lit "list"
unfolding trim
named_plainly = refl

abbrev with_ban : System toy toy_http
with_ban = end_reload toy toy_http fixed rereads listed_config 1010 listening

banned-IsRefused_example :
    IsRefused fixed with_ban (serve toy toy_http fixed post (v4 65) 5 1119 with_ban)
unfolding trim end_reload resolve_client contains
banned-IsRefused_example =
    banned-IsRefused fixed tmp_of listed_config rereads disk listening net_c (v4 65) good_target
      printed refl named_plainly refl (some (lit "2m")) 1000 (some 1120) two_minutes refl refl 1010
      1119 (omega arith) refl refl post (v4 65) 5 refl refl
