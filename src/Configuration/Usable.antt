-- ===== src/Configuration/Usable.antt =====
-- crates/budu-config/src/lib.rs, crates/budu-proxy/src/lib.rs, crates/budu-ratelimit/src/lib.rs: what the checks
-- of a configuration mean for the parts that use it.
use budu_waf.Prelude.{
  ◌≡◌, refl, true, ◌||◌, Option, none, some, Text, lit, eq_text, arith, unwrap_or, is_some_and,
}
use budu_waf.External.{Externals}
use budu_waf.Proxy.Model.{Http}
use budu_waf.Proxy.Headers.{rewrite_uri}
use budu_waf.Configuration.{Config, has_scheme, validate}

module _ (x : Externals) (h : Http x) where
  -- the conditions that the checks leave
  record Checked (c : Config x h) : Type 0 where
    pub scheme :
        has_scheme x h c.server.upstream (lit "http")
          || has_scheme x h c.server.upstream (lit "https")
        ≡ true
    pub host : is_some_and (h.uri_authority c.server.upstream) (λ a. true) ≡ true

  validate-Checked : (c : Config x h) → validate x h c ≡ none → Checked c
  unfolding validate
  validate-Checked c v = record { scheme = ground arith; host = ground arith }

  named-scheme :
      (s : Option Text)
      → is_some_and s (λ t. eq_text t (lit "http")) || is_some_and s (λ t. eq_text t (lit "https"))
        ≡ true
      → (t : Text) × (s ≡ some t) × (eq_text t (lit "http") || eq_text t (lit "https") ≡ true)
  named-scheme none e = absurd (cc)
  named-scheme (some t) e = (t, refl, e)

  present : (o : Option Text) → is_some_and o (λ a. true) ≡ true → (a : Text) × (o ≡ some a)
  present none e = absurd (cc)
  present (some a) e = (a, refl)

  -- With a configuration that passes the checks, the rewriting of a request's URI never gives up for
  -- the configured upstream: for every request it is what the URI builder makes of one http or https
  -- scheme, the upstream's authority and the request's own path and query.
  pub validate-rewrite_uri :
      (c : Config x h) (orig : h.Uri)
      → validate x h c ≡ none
      → (scheme authority : Text) × (eq_text scheme (lit "http") || eq_text scheme (lit "https")
          ≡ true)
        × (h.uri_scheme c.server.upstream ≡ some scheme)
        × (h.uri_authority c.server.upstream ≡ some authority)
        × (rewrite_uri x h c.server.upstream orig
            ≡ h.build_uri (some scheme) authority (unwrap_or (h.uri_path_and_query orig) (lit "/")))
  unfolding rewrite_uri
  validate-rewrite_uri c orig v =
      let checked = validate-Checked c v in
      let (scheme, e, named) = named-scheme (h.uri_scheme c.server.upstream) checked.scheme in
      let (authority, k) = present (h.uri_authority c.server.upstream) checked.host in
      (scheme, authority, named, e, k, rw (k, e, rewrite_uri) refl)
