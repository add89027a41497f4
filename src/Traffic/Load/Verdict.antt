-- ===== src/Traffic/Load/Verdict.antt =====
-- The verdict for a domain after `from_geo_dat` of src/traffic_diversion.rs, straight from the sites
-- of the file.
use mathlib.Core.List.{not-mem-nil}
use kitty_proxy.Common.{
  List, [], ◌≡◌, refl, sym, ◌∙◌, ap, Bool, true, false, Option, none, some, arith, Option-cases,
  inl, inr, if◌then◌else◌,
}
use kitty_proxy.Common.Outcome.{ok}
use kitty_proxy.Text.{Text}
use kitty_proxy.HashMap.{get}
use kitty_proxy.Types.{text_key}
use kitty_proxy.V2ray.{Domain, GeoSiteList}
use kitty_proxy.Traffic.Crates.{Deps, Order}
use kitty_proxy.Traffic.Rule.{TrafficStreamRule, direct, proxy}
use kitty_proxy.Traffic.{
  MatchProxy, default, or_else, domain_match_cn, match_suffix, match_preffix, match_contained,
  regex_match_cn, regex_match, traffic_stream_domain,
}
use kitty_proxy.Traffic.Contained.{contained_of_NoRule}
use kitty_proxy.Traffic.Load.{
  from_geo_dat, read_geosite_from_dat, Sites, no_sites, assemble, from_geo_dat-Load,
}
use kitty_proxy.Traffic.Load.Said.{
  cn_sites, some_site, says_name, says_root, says_regex, Says, add_geo_sites-Says,
}

module _ (x : Deps) where
  -- Is the registrable root of the input one that a site stands for?
  pub root_said : List Domain → Text → Bool
  root_said ds input = elim (x.parse_domain_name input) [
    | none ↦ false
    | some root ↦ elim root [
      | none ↦ false
      | some domain_root ↦ some_site (says_root x domain_root) ds
    ]
  ]

  -- A plain site sends its own name through a node; other domains are direct if a site stands for
  -- their root, or a regular expression matches.
  pub verdict_of : List Domain → Text → TrafficStreamRule
  verdict_of ds input =
      if some_site (says_name x input) ds
      then proxy
      else if root_said ds input
      then direct
      else if some_site (says_regex x input) ds
      then direct
      else proxy

  module _ (order : Order TrafficStreamRule) (combiners : x.v4.Ranges × x.v6.Ranges)
      (sites : Sites x) (ds : List Domain)
      (said : Says x (λ says. some_site says ds) (no_sites x) sites) where
    loaded : MatchProxy x
    loaded = assemble x combiners sites

    no_affix : (input : Text) → match_contained (order.iter []) input ≡ none
    no_affix input = contained_of_NoRule order [] input (λ k v t i. not-mem-nil t)

    by_root :
        (input : Text)
        → domain_match_cn x loaded input ≡ (if root_said ds input then some direct else none)
    unfolding domain_match_cn root_said loaded assemble default get
    by_root input = elim (Option-cases (x.parse_domain_name input)) [
      | inl bad ↦ rw (bad, domain_match_cn, root_said)
      | inr (none, e) ↦ rw (e, domain_match_cn, root_said)
      | inr (some root, e) ↦ rw (e, domain_match_cn, root_said) (said.roots root)
    ]

    by_name :
        (input : Text)
        → get loaded.plain_site_map input
          ≡ (if some_site (says_name x input) ds then some proxy else none)
    unfolding loaded assemble default get
    by_name input = said.names input

    by_regex : (input : Text) → regex_match_cn x loaded input ≡ some_site (says_regex x input) ds
    unfolding loaded assemble default regex_match_cn regex_match
    by_regex input = said.regexes input

    decided :
        (name root regex : Bool)
        → or_else
            (if name then some proxy else none)
            (or_else (if root then some direct else none) (if regex then direct else proxy))
          ≡ (if name then proxy else if root then direct else if regex then direct else proxy)
    decided true root regex = refl
    decided false true regex = refl
    decided false false regex = refl

    pub assembled_verdict :
        (input : Text)
        → traffic_stream_domain x order (assemble x combiners sites) input ≡ verdict_of ds input
    unfolding traffic_stream_domain match_suffix match_preffix loaded assemble default verdict_of
    assembled_verdict input =
        rw (no_affix input, by_name input, by_root input, by_regex input) (decided _ _ _)

  -- After a successful load, whatever the iteration order of the maps, the verdict for a domain
  -- depends on the sites of the first entry for "cn" in the geo site file, and on them only as
  -- follows: a plain site that is the name makes it `proxy`; else a domain site with the name's
  -- registrable root, or a full site that is this root, makes it `direct`; else so does a regular
  -- expression of a site that matches the name; else it is `proxy`.
  pub from_geo_dat-verdict_of :
      (order : Order TrafficStreamRule) (geoip geosite : Option Text) (m : MatchProxy x)
      (gs : GeoSiteList) (input : Text)
      → from_geo_dat x geoip geosite ≡ ok m
      → read_geosite_from_dat x geosite ≡ ok gs
      → traffic_stream_domain x order m input ≡ verdict_of (cn_sites gs.entry) input
  from_geo_dat-verdict_of order geoip geosite m gs input e read =
      let load = from_geo_dat-Load x geoip geosite m e in
      let same : load.geo_sites ≡ gs = ground (arith, load.sites_read, read) in
      ap (λ self. traffic_stream_domain x order self input) (sym load.assembled)
      ∙ assembled_verdict order load.combiners load.sites (cn_sites load.geo_sites.entry)
          (add_geo_sites-Says x load.geo_sites.entry (no_sites x) load.sites load.added) input
      ∙ ap (λ sites. verdict_of (cn_sites sites.entry) input) same
