-- ===== src/GeoIp.antt =====
-- crates/budu-reputation/src/geoip.rs: the country policy.
use budu_waf.Prelude.{
  Bool, ◌&&◌, not, Option, none, some, List, [], ◌∷◌, Text, Bytes, lit, as_bytes, trim, upper, any,
  filter_map, is_empty, ◌==◌, ◌>>=◌, if◌then◌else◌,
}
use budu_waf.Common.{CountryCode, RequestCtx, ControlFlow, go_on, stop, block}
use budu_waf.External.{Externals}

pub record GeoStage : Type 0 where
  pub allow : List CountryCode
  pub block : List CountryCode

-- two bytes, in upper case
unfoldable pub code_of : Bytes → Option CountryCode
code_of (a ∷ b ∷ []) = some (record { first = upper a; second = upper b })
code_of _ = none

unfoldable pub to_codes : List Text → List CountryCode
to_codes list = filter_map (λ s. code_of (as_bytes (trim s))) list

abbrev pub same_code : CountryCode → CountryCode → Bool
same_code a b = a.first == b.first && a.second == b.second

abbrev pub listed : CountryCode → List CountryCode → Bool
listed c list = any (λ d. same_code d c) list

unfoldable pub country_decision : Option CountryCode → List CountryCode → List CountryCode → Bool
country_decision (some code) permitted refused =
    if not (is_empty permitted) then listed code permitted else not (listed code refused)
country_decision none permitted refused = is_empty permitted

module _ (x : Externals) where
  -- the country is stamped on the request before the decision
  unfoldable pub inspect : GeoStage → RequestCtx x.Headers → RequestCtx x.Headers × ControlFlow
  inspect s ctx =
      let geo = x.country_of ctx.client.ip >>= code_of in
      (
        record ctx { client = record (ctx.client) { geo = geo } },
        if country_decision geo s.allow s.block
            then go_on
            else stop (block (lit "geoip.country") 403 (lit "source country not permitted")),
      )
