-- ===== src/Traffic/Load/Loaded.antt =====
-- The site rules that `from_geo_dat` of src/traffic_diversion.rs loads.
use mathlib.Core.List.{not-mem-nil}
use mathlib.Core.Logic.Or
use mathlib.Core.HLevel.{⊥_prop}
use kitty_proxy.Common.{
  List, [], ◌∷◌, ◌≡◌, ◌≢◌, sym, ◌∙◌, ◌++◌, subst, Option, none, some, Mem, arith, Option-cases, inl,
  inr, Bool-cases,
}
use kitty_proxy.Common.Outcome.{Outcome, ok, err, and_then-eq-ok}
use kitty_proxy.Text.{Text}
use kitty_proxy.HashMap.{HashMap, insert}
use kitty_proxy.HashMap.Members.{mem-insert, mem_of_get}
use kitty_proxy.Types.{Host, ipv4, ipv6, domain, text_key}
use kitty_proxy.V2ray.{Domain, GeoSite, SiteType, type_of}
use kitty_proxy.Traffic.Crates.{Deps, Order}
use kitty_proxy.Traffic.Rule.{TrafficStreamRule, direct, proxy, reject}
use kitty_proxy.Traffic.{
  MatchProxy, default, domain_match_cn, root_or_empty, traffic_stream, traffic_stream_domain,
}
use kitty_proxy.Traffic.Addresses.{address_not_rejected}
use kitty_proxy.Traffic.Verdict.{
  Verdict, by_suffix, by_preffix, by_name, by_root, by_regex, by_default,
  traffic_stream_domain-Verdict,
}
use kitty_proxy.Traffic.Load.{
  LoadError, bad_regex, is_cn, Sites, no_sites, add_root, add_site, add_sites, add_geo_sites,
  assemble, from_geo_dat, Load, from_geo_dat-Load,
}

-- No rule of the map is `reject`.
abbrev NoReject : HashMap Text TrafficStreamRule → Type 0
NoReject m = (k : Text) (v : TrafficStreamRule) → Mem (k, v) m → v ≢ reject

NoReject-empty : NoReject []
NoReject-empty k v t e = not-mem-nil t

insert-NoReject :
    (m : HashMap Text TrafficStreamRule) (k : Text) (rule : TrafficStreamRule)
    → rule ≢ reject
    → NoReject m
    → NoReject (insert m k rule)
insert-NoReject m k rule ne h j v t e =
    Or.elim ⊥_prop (mem-insert m k rule j v t) (λ same. ne (sym same ∙ e)) (λ old. h j v old e)

module _ (x : Deps) where
  abbrev Accepting : Sites x → Type 0
  Accepting s = NoReject s.plain_site_map × NoReject s.root_domain_map

  add_root-Accepting : (root : Text) (s : Sites x) → Accepting s → Accepting (add_root x root s)
  unfolding add_root
  add_root-Accepting [] s h = h
  add_root-Accepting (c ∷ root) s h =
      (h.0, insert-NoReject s.root_domain_map (c ∷ root) direct (λ e. cc) h.1)

  accepted :
      {s s' : Sites x}
      → Accepting s
      → ◌≡◌ {A = Outcome LoadError (Sites x)} (ok s) (ok s')
      → Accepting s'
  accepted {s} {s'} h e = subst Accepting same h
    where
      same : s ≡ s'
      same = ground arith

  add_site-Accepting :
      (t : SiteType) (value : Text) (s s' : Sites x)
      → Accepting s
      → add_site x t value s ≡ ok s'
      → Accepting s'
  unfolding add_site
  add_site-Accepting SiteType.plain value s s' h e =
      accepted (insert-NoReject s.plain_site_map value proxy (λ e. cc) h.0, h.1) e
  add_site-Accepting SiteType.regex value s s' h e = elim (Option-cases (x.regex_new value)) [
    | inl bad ↦ failed (rw (bad, add_site) at e)
    | inr (r, good) ↦
        accepted {s = record s { direct_regex_sites = s.direct_regex_sites ++ r ∷ [] }} h
          (rw (good, add_site) at e)
  ]
    where
      failed : ◌≡◌ {A = Outcome LoadError (Sites x)} (err (bad_regex value)) (ok s') → Accepting s'
      failed e = cc
  add_site-Accepting SiteType.domain value s s' h e =
      accepted (add_root-Accepting (root_or_empty x value) s h) e
  add_site-Accepting SiteType.full value s s' h e =
      accepted (h.0, insert-NoReject s.root_domain_map value direct (λ e. cc) h.1) e

  add_sites-Accepting :
      (ds : List Domain) (s s' : Sites x) → Accepting s → add_sites x ds s ≡ ok s' → Accepting s'
  unfolding add_sites
  add_sites-Accepting [] s s' h e = accepted h e
  add_sites-Accepting (d ∷ ds) s s' h e =
      let (s1, first, rest) =
        and_then-eq-ok (add_site x (type_of d.site_type) d.value s) (add_sites x ds) e in
      add_sites-Accepting ds s1 s' (add_site-Accepting (type_of d.site_type) d.value s s1 h first)
        rest

  add_geo_sites-Accepting :
      (gs : List GeoSite) (s s' : Sites x)
      → Accepting s
      → add_geo_sites x gs s ≡ ok s'
      → Accepting s'
  unfolding add_geo_sites
  add_geo_sites-Accepting [] s s' h e = accepted h e
  add_geo_sites-Accepting (g ∷ gs) s s' h e = elim (Bool-cases (is_cn g.country_code)) [
    | inl cn ↦ add_sites-Accepting g.domain s s' h (rw (cn, add_geo_sites) at e)
    | inr other ↦ add_geo_sites-Accepting gs s s' h (rw (other, add_geo_sites) at e)
  ]

  root_rule :
      (self : MatchProxy x) (input : Text) (v : TrafficStreamRule)
      → NoReject self.root_domain_map
      → domain_match_cn x self input ≡ some v
      → v ≢ reject
  unfolding domain_match_cn
  root_rule self input v h e = elim (Option-cases (x.parse_domain_name input)) [
    | inl bad ↦ unmatched (rw (bad, domain_match_cn) at e)
    | inr (none, no_root) ↦ unmatched (rw (no_root, domain_match_cn) at e)
    | inr (some root, found) ↦
        h root v (mem_of_get self.root_domain_map root v (rw (found, domain_match_cn) at e))
  ]
    where
      unmatched : ◌≡◌ {A = Option TrafficStreamRule} none (some v) → v ≢ reject
      unmatched e = cc

  verdict_lem :
      (combiners : x.v4.Ranges × x.v6.Ranges) (sites : Sites x) (input : Text)
      (v : TrafficStreamRule)
      → Accepting sites
      → Verdict x (assemble x combiners sites) input v
      → v ≢ reject
  unfolding assemble default
  verdict_lem combiners sites input v h (by_suffix (k, t, at)) e = not-mem-nil t
  verdict_lem combiners sites input v h (by_preffix n (k, t, at)) e = not-mem-nil t
  verdict_lem combiners sites input v h (by_name n found) e =
      h.0 input v (mem_of_get sites.plain_site_map input v found) e
  verdict_lem combiners sites input v h (by_root n none_here found) e =
      root_rule (assemble x combiners sites) input v h.1 found e
  verdict_lem combiners sites input v h (by_regex n m d) e = clash (sym d ∙ e)
    where
      clash : direct ≡ reject → ⊥
      clash e = cc
  verdict_lem combiners sites input v h (by_default n m d) e = clash (sym d ∙ e)
    where
      clash : proxy ≡ reject → ⊥
      clash e = cc

-- No host, address or domain, is rejected by the rules that `from_geo_dat` returns, whatever the
-- files hold.
pub from_geo_dat_accepts :
    (x : Deps) (order : Order TrafficStreamRule) (geoip geosite : Option Text) (m : MatchProxy x)
    (host : Host)
    → from_geo_dat x geoip geosite ≡ ok m
    → traffic_stream x order m host ≢ reject
unfolding traffic_stream
from_geo_dat_accepts x order geoip geosite m (ipv4 a) loaded =
    address_not_rejected x order m (ipv4 a) (λ name e. cc)
from_geo_dat_accepts x order geoip geosite m (ipv6 a) loaded =
    address_not_rejected x order m (ipv6 a) (λ name e. cc)
from_geo_dat_accepts x order geoip geosite m (domain name) loaded =
    verdict_lem x load.combiners load.sites name _ sites_accept (
      subst (λ self. Verdict x self name (traffic_stream_domain x order m name))
        (sym load.assembled) (traffic_stream_domain-Verdict x m name order))
  where
    load : Load x geoip geosite m
    load = from_geo_dat-Load x geoip geosite m loaded

    sites_accept : Accepting x load.sites
    sites_accept =
        add_geo_sites-Accepting x load.geo_sites.entry (no_sites x) load.sites
          (NoReject-empty, NoReject-empty) load.added
