-- ===== src/Traffic/Load.antt =====
-- `MatchProxy::from_geo_dat` of src/traffic_diversion.rs: the rules from the geo files.
pub mod Ranges
pub mod Loaded
pub mod Said
pub mod Verdict
pub mod Tests
use kitty_proxy.Common.{
  ◌≡◌, arith, ℕ, Bool, List, [], ◌∷◌, ◌++◌, Option, none, some, map, length, ◌==◌, if◌then◌else◌,
}
use kitty_proxy.Common.Outcome.{Outcome, ok, err, panic, and_then, and_then-eq-ok, unwrap}
use kitty_proxy.Text.{Text, codes, text_eq, to_lowercase}
use kitty_proxy.Text.Decimal.{to_string, join}
use kitty_proxy.HashMap.{HashMap, insert}
use kitty_proxy.Types.{text_key}
use kitty_proxy.V2ray.{Cidr, GeoIp, GeoSite, GeoSiteList, Domain, SiteType, type_of}
use kitty_proxy.Traffic.Crates.{Deps}
use kitty_proxy.Traffic.Rule.{TrafficStreamRule, direct, proxy}
use kitty_proxy.Traffic.{MatchProxy, default, root_or_empty}

-- `impl Display for Cidr`
unfoldable pub cidr_to_string : Cidr → Text
unfolding to_string join
cidr_to_string c = join b'.' (map to_string c.ip) ++ b'/' ∷ to_string c.prefix

-- `country_code.to_lowercase() == "cn"`
unfoldable pub is_cn : Text → Bool
unfolding to_lowercase text_eq
is_cn country_code = text_eq (to_lowercase country_code) (codes "cn")

-- The error of `Regex::new`.
pub data LoadError : Type 0 where
  bad_regex : Text → LoadError

module _ (x : Deps) where
  -- The combiners of the first loop.
  abbrev pub Combiners : Type 0
  Combiners = x.v4.Ranges × x.v6.Ranges

  pub push_ipv4 : Cidr → Combiners → Outcome LoadError Combiners
  push_ipv4 c (r4, r6) =
      if length c.ip == 4
      then and_then (unwrap (x.v4.from_str (cidr_to_string c))) (λ d. ok (x.v4.push r4 d, r6))
      else ok (r4, r6)

  pub push_ipv6 : Cidr → Combiners → Outcome LoadError Combiners
  push_ipv6 c (r4, r6) =
      if length c.ip == 8
      then and_then (unwrap (x.v6.from_str (cidr_to_string c))) (λ d. ok (r4, x.v6.push r6 d))
      else ok (r4, r6)

  pub push_cidrs : List Cidr → Combiners → Outcome LoadError Combiners
  push_cidrs [] r = ok r
  push_cidrs (c ∷ cs) r = and_then (and_then (push_ipv4 c r) (push_ipv6 c)) (push_cidrs cs)

  pub push_geo_ips : List GeoIp → Combiners → Outcome LoadError Combiners
  push_geo_ips [] r = ok r
  push_geo_ips (g ∷ gs) r =
      and_then (if is_cn g.country_code then push_cidrs g.cidr r else ok r) (push_geo_ips gs)

  pub read_geo_ips : Option Text → Outcome LoadError (List GeoIp)
  read_geo_ips none = ok []
  read_geo_ips (some file) =
      and_then (unwrap (x.read_file file))
        λ content. and_then (unwrap (x.decode_geo_ip content)) λ geo_ips. ok geo_ips.entry

  pub read_geosite_from_dat : Option Text → Outcome LoadError GeoSiteList
  read_geosite_from_dat none = ok (record { entry = [] })
  read_geosite_from_dat (some file) =
      and_then (unwrap (x.read_file file)) (λ content. unwrap (x.decode_geo_site content))

  -- The maps and the vector of the second loop.
  pub record Sites : Type 0 where
    pub plain_site_map : HashMap Text TrafficStreamRule
    pub direct_regex_sites : List x.Regex
    pub root_domain_map : HashMap Text TrafficStreamRule

  abbrev pub no_sites : Sites
  no_sites = record { plain_site_map = []; direct_regex_sites = []; root_domain_map = [] }

  pub add_root : Text → Sites → Sites
  add_root [] s = s
  add_root (c ∷ root) s = record s { root_domain_map = insert s.root_domain_map (c ∷ root) direct }

  pub add_site : SiteType → Text → Sites → Outcome LoadError Sites
  add_site SiteType.plain value s =
      ok (record s { plain_site_map = insert s.plain_site_map value proxy })
  add_site SiteType.regex value s = elim (x.regex_new value) [
    | none ↦ err (bad_regex value)
    | some r ↦ ok (record s { direct_regex_sites = s.direct_regex_sites ++ r ∷ [] })
  ]
  add_site SiteType.domain value s = ok (add_root (root_or_empty x value) s)
  add_site SiteType.full value s =
      ok (record s { root_domain_map = insert s.root_domain_map value direct })

  pub add_sites : List Domain → Sites → Outcome LoadError Sites
  add_sites [] s = ok s
  add_sites (d ∷ ds) s = and_then (add_site (type_of d.site_type) d.value s) (add_sites ds)

  -- The loop breaks after the first entry of the country.
  pub add_geo_sites : List GeoSite → Sites → Outcome LoadError Sites
  add_geo_sites [] s = ok s
  add_geo_sites (g ∷ gs) s =
      if is_cn g.country_code then add_sites g.domain s else add_geo_sites gs s

  -- `let ins = Self { .. }`
  unfoldable pub assemble : Combiners → Sites → MatchProxy x
  assemble combiners sites = record (default x) {
    plain_site_map = sites.plain_site_map;
    root_domain_map = sites.root_domain_map;
    direct_regex_sites = sites.direct_regex_sites;
    direct_ipv4_combainer = combiners.0;
    direct_ipv6_combainer = combiners.1;
    direct_ipv4_combainer_clone = combiners.0;
    direct_ipv6_combainer_clone = combiners.1;
  }

  load_sites : Option Text → Combiners → Outcome LoadError (MatchProxy x)
  load_sites geo_site_file combiners = and_then (read_geosite_from_dat geo_site_file) λ geo_sites.
      and_then (add_geo_sites geo_sites.entry no_sites) λ sites. ok (assemble combiners sites)

  unfoldable pub from_geo_dat : Option Text → Option Text → Outcome LoadError (MatchProxy x)
  unfolding load_sites
  from_geo_dat gepip_file geo_site_file =
      and_then (read_geo_ips gepip_file)
        λ geo_ips. and_then (push_geo_ips geo_ips (x.v4.new, x.v6.new)) (load_sites geo_site_file)

  -- The parts of a successful load.
  pub record Load (geoip geosite : Option Text) (m : MatchProxy x) : Type 0 where
    pub geo_ips : List GeoIp
    pub geo_sites : GeoSiteList
    pub combiners : Combiners
    pub sites : Sites
    pub ips_read : read_geo_ips geoip ≡ ok geo_ips
    pub sites_read : read_geosite_from_dat geosite ≡ ok geo_sites
    pub pushed : push_geo_ips geo_ips (x.v4.new, x.v6.new) ≡ ok combiners
    pub added : add_geo_sites geo_sites.entry no_sites ≡ ok sites
    pub assembled : assemble combiners sites ≡ m

  pub from_geo_dat-Load :
      (geoip geosite : Option Text) (m : MatchProxy x)
      → from_geo_dat geoip geosite ≡ ok m
      → Load geoip geosite m
  unfolding from_geo_dat
  from_geo_dat-Load geoip geosite m h =
      let (geo_ips, ips_read, h1) =
        and_then-eq-ok (read_geo_ips geoip)
          (λ geo_ips. and_then (push_geo_ips geo_ips (x.v4.new, x.v6.new)) (load_sites geosite))
          h in
      let (combiners, pushed, h2) =
        and_then-eq-ok (push_geo_ips geo_ips (x.v4.new, x.v6.new)) (load_sites geosite) h1 in
      let (geo_sites, sites_read, h3) =
        and_then-eq-ok (read_geosite_from_dat geosite)
          (λ geo_sites.
            and_then (add_geo_sites geo_sites.entry no_sites)
              λ sites. ok (assemble combiners sites))
          h2 in
      let (sites, added, h4) =
        and_then-eq-ok (add_geo_sites geo_sites.entry no_sites)
          (λ sites. ok (assemble combiners sites)) h3 in
      record {
        geo_ips = geo_ips;
        geo_sites = geo_sites;
        combiners = combiners;
        sites = sites;
        ips_read = ips_read;
        sites_read = sites_read;
        pushed = pushed;
        added = added;
        assembled = ground (arith, h4);
      }
