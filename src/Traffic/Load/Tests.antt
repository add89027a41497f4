-- ===== src/Traffic/Load/Tests.antt =====
-- A load of one IPv4 range for "cn", and the theorems on `from_geo_dat` at it.
use kitty_proxy.Common.{ℕ, List, [], ◌∷◌, ◌≡◌, refl, some, none, inl}
use kitty_proxy.Text.{Text, codes}
use kitty_proxy.Text.Decimal.{parse_u8, split}
use kitty_proxy.V2ray.{Domain, GeoSite, type_of}
use kitty_proxy.Traffic.Load.Said.{cn_sites}
use kitty_proxy.Traffic.Load.Verdict.{verdict_of, from_geo_dat-verdict_of}
use kitty_proxy.Types.{pos, ipv6, Ipv6Addr}
use kitty_proxy.Traffic.Rule.{direct, proxy}
use kitty_proxy.Traffic.{MatchProxy, default, traffic_stream, traffic_stream_domain, root_or_empty}
use kitty_proxy.Traffic.Tests.{china, crates, order, empty, at}
use kitty_proxy.Traffic.Load.{
  from_geo_dat, cidr_to_string, is_cn, read_geo_ips, push_geo_ips, push_cidrs, push_ipv4, push_ipv6,
  read_geosite_from_dat, add_geo_sites, assemble, load_sites, add_site, add_sites, add_root,
}
use kitty_proxy.HashMap.{insert}
use kitty_proxy.Traffic.Crates.{Deps}
use kitty_proxy.Common.Outcome.{ok}
use kitty_proxy.Traffic.Load.Ranges.{from_geo_dat-ipv4, from_geo_dat-ipv6}

abbrev loaded : MatchProxy crates
loaded = record empty { direct_ipv4_combainer = 1 ∷ []; direct_ipv4_combainer_clone = 1 ∷ [] }

from_geo_dat-ipv4_example : traffic_stream crates order loaded (at 1) ≡ direct
unfolding from_geo_dat cidr_to_string parse_u8 split default is_cn read_geo_ips push_geo_ips
    push_cidrs push_ipv4 push_ipv6 read_geosite_from_dat add_geo_sites assemble load_sites
    traffic_stream
from_geo_dat-ipv4_example =
    from_geo_dat-ipv4 crates order (some (codes "geoip.dat")) none loaded (china ∷ []) refl refl
      (record { a = 1; b = 2; c = 3; d = 4 })

abbrev an_ipv6 : Ipv6Addr
an_ipv6 = record { s0 = 8193; s1 = 0; s2 = 0; s3 = 0; s4 = 0; s5 = 0; s6 = 0; s7 = 1 }

from_geo_dat-ipv6_example : traffic_stream crates order loaded (ipv6 an_ipv6) ≡ proxy
unfolding from_geo_dat cidr_to_string parse_u8 split default is_cn read_geo_ips push_geo_ips
    push_cidrs push_ipv4 push_ipv6 read_geosite_from_dat add_geo_sites assemble load_sites
from_geo_dat-ipv6_example =
    from_geo_dat-ipv6 crates order (some (codes "geoip.dat")) none loaded (china ∷ []) refl refl
      an_ipv6 (inl refl, tt)

-- Two entries for "cn": only the first counts.
abbrev pub site : ℕ → Text → Domain
site t value = record { site_type = pos t; value = value; attribute = [] }

abbrev pub entries : List GeoSite
entries =
    (record { country_code = codes "CN"; domain = site 2 (codes "b.cn") ∷ site 0 (codes "a") ∷ [] })
    ∷ (record { country_code = codes "cn"; domain = site 0 (codes "b.cn") ∷ [] })
    ∷ []

abbrev pub with_sites : Deps
with_sites = record crates { decode_geo_site = λ t. some (record { entry = entries }) }

abbrev from_entries : MatchProxy with_sites
from_entries = record (default with_sites) {
  plain_site_map = (codes "a", proxy) ∷ [];
  root_domain_map = (codes "b.cn", direct) ∷ [];
}

from_geo_dat-verdict_of_example :
    traffic_stream_domain with_sites order from_entries (codes "b.cn")
    ≡ verdict_of with_sites (cn_sites entries) (codes "b.cn")
unfolding from_geo_dat default is_cn read_geo_ips push_geo_ips read_geosite_from_dat add_geo_sites
    assemble load_sites add_sites add_site add_root root_or_empty insert type_of
from_geo_dat-verdict_of_example =
    from_geo_dat-verdict_of with_sites order none (some (codes "geosite.dat")) from_entries
      (record { entry = entries }) (codes "b.cn") refl refl

-- Both files at once.
abbrev pub from_both : MatchProxy with_sites
from_both = record (default with_sites) {
  plain_site_map = (codes "a", proxy) ∷ [];
  root_domain_map = (codes "b.cn", direct) ∷ [];
  direct_ipv4_combainer = 1 ∷ [];
  direct_ipv4_combainer_clone = 1 ∷ [];
}

pub from_both_test :
    (geoip geosite : Text) → from_geo_dat with_sites (some geoip) (some geosite) ≡ ok from_both
unfolding from_geo_dat default is_cn read_geo_ips push_geo_ips read_geosite_from_dat add_geo_sites
    assemble load_sites add_sites add_site add_root root_or_empty insert type_of cidr_to_string
    parse_u8 split push_cidrs push_ipv4 push_ipv6
from_both_test geoip geosite = refl

pub read_entries_test :
    (geosite : Text)
    → read_geosite_from_dat with_sites (some geosite) ≡ ok (record { entry = entries })
unfolding read_geosite_from_dat
read_entries_test geosite = refl
