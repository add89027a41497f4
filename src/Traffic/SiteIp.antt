-- ===== src/Traffic/SiteIp.antt =====
-- `SiteIp` of src/traffic_diversion.rs: what a text is, an address or a name. Nothing calls it.
use kitty_proxy.Common.{Option, none, some, if◌then◌else◌}
use kitty_proxy.Common.Outcome.{Outcome, ok, and_then, unwrap}
use kitty_proxy.Text.{Text, codes}
use kitty_proxy.Types.{IpAddr, v4, v6, Ipv4Addr, Ipv6Addr}
use kitty_proxy.Traffic.Crates.{Deps}

pub data SiteIp : Type 0 where
  ipv4_site : Ipv4Addr → SiteIp
  ipv6_site : Ipv6Addr → SiteIp
  domain_site unknown_site : Text → SiteIp

abbrev domain_pattern : Text
domain_pattern = codes "^[a-zA-Z0-9-]+\\.[a-zA-Z]{2,}$"

-- `parse` is `str::parse::<IpAddr>`.
module _ (x : Deps) (E : Type 0) (parse : Text → Option IpAddr) where
  site_of_ip : IpAddr → SiteIp
  site_of_ip (v4 addr) = ipv4_site addr
  site_of_ip (v6 addr) = ipv6_site addr

  pub from_str : Text → Outcome E SiteIp
  unfolding site_of_ip
  from_str input = elim (parse input) [
    | some ip ↦ ok (site_of_ip ip)
    | none ↦ and_then (unwrap (x.regex_new domain_pattern)) λ domain_regex.
        ok (if x.is_match domain_regex input then domain_site input else unknown_site input)
  ]
