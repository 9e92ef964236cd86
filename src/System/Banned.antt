-- ===== src/System/Banned.antt =====
-- crates/budu/src/ban.rs, crates/budu/src/main.rs and crates/budu-proxy/src/lib.rs: from the command that
-- bans a network to the answer to a request from it.
use budu_waf.Prelude.{
  any-append_left, any-append_right, ℕ, ◌≤◌, ◌≡◌, refl, sym, true, false, Option, some, ◌∷◌, ◌++◌,
  Text, trim, is_empty, map,
}
use mathlib.Core.Path.{subst}
use budu_waf.Common.{IpAddr}
use budu_waf.External.{Externals}
use budu_waf.Reputation.{perm, contains, build_blocks, parse_target, parse_blocklist}
use budu_waf.Bans.{Content, missing, unreadable, readable, Disk, no_fault, ban, until_of}
use budu_waf.Bans.Entry.{has_ended, IsPrinted}
use budu_waf.Bans.Edits.{is_clean, listed}
use budu_waf.Bans.Edits
use budu_waf.Bans.Commands.{ban-contains}
use budu_waf.Bans.Loading.{text_of}
use budu_waf.Proxy.Model.{Http, Request, Response, Audit}
use budu_waf.Proxy.Handle.{error_response}
use budu_waf.Proxy.Headers.{resolve_client}
use budu_waf.Proxy.Reqid.{resolve}
use budu_waf.Proxy.Serve.{is_detect, handle}
use budu_waf.Proxy.Refused.{handle_inner-refused}
use budu_waf.Supervisor.Steps.{refresh-rest}
use budu_waf.Configuration.{Config, proxy_config, settings}
use budu_waf.System.{Fixed, System, pipeline_of, serve, end_reload}
use budu_waf.Supervisor.{Outside, Settings, Shared, load_list, refresh_blocklist}

module _ (x : Externals) where
  -- a refresh finds what the list of the configuration has
  pub refresh-listed :
      (out : Outside) (cfg : Settings x) (load later : ℕ) (ip : IpAddr) (shared : Shared x)
      (content : Content)
      → out.fail2ban ≡ true
      → is_empty (trim cfg.reputation.blocklist_file) ≡ false
      → out.read_text cfg.reputation.blocklist_file ≡ text_of content
      → contains x (Edits.loaded x content load) ip later ≡ true
      → contains x (refresh_blocklist x out cfg load shared).0.blocks ip later ≡ true
  unfolding refresh_blocklist load_list build_blocks contains
  refresh-listed out cfg load later ip shared missing f n r k = absurd (cc)
  refresh-listed out cfg load later ip shared unreadable f n r k = absurd (cc)
  refresh-listed out cfg load later ip shared (readable text) f n r k =
      rw (n, r, f, refresh_blocklist, load_list)
        (any-append_left _
          (map (perm x) cfg.reputation.blocklist ++ parse_blocklist x true text load) _
          (any-append_right _ (map (perm x) cfg.reputation.blocklist) _ k))

module _ {x : Externals} {h : Http x} (fixed : Fixed) where
  -- A request was answered 403, the upstream was sent nothing, and the refusal is in the audit log.
  pub record IsRefused (s : System x h) (r : System x h × Option (Response x.Headers))
      : Type 0 where
    pub answer : Response x.Headers
    pub answered : r.1 ≡ some answer
    pub status : answer.status ≡ 403
    pub unsent : r.0.site.sent ≡ s.site.sent
    pub logged :
        (a : Audit) × (a.status ≡ 403) × (a.enforced ≡ true) × (r.0.site.audit ≡ a ∷ s.site.audit)

  -- the client that the proxy takes a request to be of
  abbrev pub client_of : System x h → Request h.Uri x.Headers → IpAddr → IpAddr
  client_of s req peer = (resolve_client x h (proxy_config x h s.config) req.headers peer).ip

  serve-IsRefused :
      (s : System x h) (req : Request h.Uri x.Headers) (peer : IpAddr) (seed now : ℕ)
      → is_detect s.config.server.enforcement ≡ false
      → contains x s.supervisor.shared.blocks (client_of s req peer) now ≡ true
      → contains x s.supervisor.shared.allowlist (client_of s req peer) now ≡ false
      → IsRefused s (serve x h fixed req peer seed now s)
  unfolding serve handle error_response
  serve-IsRefused s req peer seed now e k l =
      let id = (resolve x req.headers s.config.server.request_id_header seed s.counter).0 in
      let refused =
        handle_inner-refused (pipeline_of x fixed s.supervisor.shared) now
          (proxy_config x h s.config) req peer id s.site e k l in
      rw (refused, serve, handle)
        (record {
          answer = _;
          answered = refl;
          status = refl;
          unsent = refl;
          logged = (_, refl, refl, refl);
        })

  -- Whatever happened before: once a reload after a ban has loaded the block list, a request that is
  -- handled with what that reload left, and whose client is in the network, is answered 403 until
  -- the ban ends, with nothing sent upstream and the refusal logged. The list's name has no blanks
  -- around it, its text has no carriage returns, what is printed of the network parses as it, the
  -- file is read as the command left it, the client is not on the allow list, and decisions are
  -- enforced.
  pub banned-IsRefused :
      (tmp_of : Text → Text) (cfg : Config x h) (out : Outside) (disk : Disk) (s : System x h)
      (target : Text) (net : x.Net)
      → parse_target x target ≡ some net
      → IsPrinted x net
      → is_empty (trim cfg.reputation.blocklist_file) ≡ false
      → trim cfg.reputation.blocklist_file ≡ cfg.reputation.blocklist_file
      → is_clean (disk (trim cfg.reputation.blocklist_file)) ≡ true
      → (duration : Option Text) (now : ℕ) (until : Option ℕ) → until_of x duration now ≡ some until
      → out.fail2ban ≡ true
      → out.read_text cfg.reputation.blocklist_file
        ≡ text_of (
            (ban x tmp_of cfg.reputation.blocklist_file target duration now no_fault disk).0
              cfg.reputation.blocklist_file)
      → (load later : ℕ) → load ≤ later
      → has_ended until later ≡ false
      → is_detect cfg.server.enforcement ≡ false
      → (req : Request h.Uri x.Headers) (peer : IpAddr) (seed : ℕ)
      → x.net_contains net (client_of (end_reload x h fixed out cfg load s) req peer) ≡ true
      → contains x s.supervisor.shared.allowlist
          (client_of (end_reload x h fixed out cfg load s) req peer)
          later
        ≡ false
      → IsRefused
          (end_reload x h fixed out cfg load s)
          (serve x h fixed req peer seed later (end_reload x h fixed out cfg load s))
  unfolding end_reload
  banned-IsRefused tmp_of cfg out disk s target net parses printed named plain clean duration now
        until lasts built reads load later order holds enforced req peer seed inside stranger =
      let file = cfg.reputation.blocklist_file in
      let reloaded = end_reload x h fixed out cfg load s in
      let after = (ban x tmp_of file target duration now no_fault disk).0 in
      let on_list =
        ban-contains x tmp_of file target net disk parses named clean duration now until printed
          lasts load later (client_of reloaded req peer) order holds inside in
      let found =
        refresh-listed x out (settings x h cfg) load later (client_of reloaded req peer)
          s.supervisor.shared (after file) built named reads
          (subst
            (λ f. contains x (listed x after f load) (client_of reloaded req peer) later ≡ true)
            plain on_list) in
      let (sigs, rules, allow) = refresh-rest x out (settings x h cfg) load s.supervisor.shared in
      serve-IsRefused reloaded req peer seed later enforced found
        (subst (λ a. contains x a (client_of reloaded req peer) later ≡ false) (sym allow) stranger)
