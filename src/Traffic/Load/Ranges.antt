-- ===== src/Traffic/Load/Ranges.antt =====
-- Which addresses are direct after the geo files are loaded.
use kitty_proxy.Common.{
  List, [], ◌∷◌, ◌++◌, ◌≡◌, refl, ◌∙◌, Bool, false, ◌||◌, ◌&&◌, Option, none, some, arith, length,
  ◌==◌, if◌then◌else◌, Bool-cases, Option-cases, inl, inr, ◌⊎◌, All, All-left, All-right,
}
use kitty_proxy.Common.Outcome.{ok, and_then, and_then-eq-ok}
use kitty_proxy.Text.{Text}
use kitty_proxy.Types.{ipv4, ipv6, Ipv4Addr, Ipv6Addr}
use kitty_proxy.V2ray.{Cidr, GeoIp}
use kitty_proxy.Traffic.Crates.{Deps, Order}
use kitty_proxy.Traffic.Rule.{TrafficStreamRule, direct, proxy}
use kitty_proxy.Traffic.{MatchProxy, traffic_stream}
use kitty_proxy.Traffic.Load.{
  cidr_to_string, is_cn, push_ipv4, push_ipv6, push_cidrs, push_geo_ips, read_geo_ips, from_geo_dat,
  assemble, Load, from_geo_dat-Load,
}

-- The CIDRs of the entries for "cn", in the order of the file.
abbrev pub cn_cidrs : List GeoIp → List Cidr
cn_cidrs [] = []
cn_cidrs (g ∷ gs) = if is_cn g.country_code then g.cidr ++ cn_cidrs gs else cn_cidrs gs

module _ (x : Deps) where
  -- A CIDR of four bytes covers an IPv4 address, one of eight bytes an IPv6 address.
  abbrev pub covers_v4 : Ipv4Addr → Cidr → Bool
  covers_v4 a c = elim (x.v4.from_str (cidr_to_string c)) [
    | none ↦ false
    | some d ↦ length c.ip == 4 && x.v4.covers d a
  ]

  abbrev pub any_v4 : Ipv4Addr → List Cidr → Bool
  any_v4 a [] = false
  any_v4 a (c ∷ cs) = covers_v4 a c || any_v4 a cs

  any_v4-append :
      (a : Ipv4Addr) (cs ds : List Cidr) → any_v4 a (cs ++ ds) ≡ (any_v4 a cs || any_v4 a ds)
  any_v4-append a [] ds = refl
  any_v4-append a (c ∷ cs) ds = ground (arith, any_v4-append a cs ds)

  push_ipv4-second :
      (c : Cidr) (r r' : x.v4.Ranges × x.v6.Ranges) → push_ipv4 x c r ≡ ok r' → r'.1 ≡ r.1
  unfolding push_ipv4
  push_ipv4-second c (r4, r6) r' h = elim (Option-cases (x.v4.from_str (cidr_to_string c))) [
    | inl e ↦ ground (arith, e)
    | inr (d, e) ↦ ground (arith, e)
  ]

  push_ipv4-covers :
      (a : Ipv4Addr) (c : Cidr) (r r' : x.v4.Ranges × x.v6.Ranges)
      → push_ipv4 x c r ≡ ok r'
      → x.v4.contains r'.0 a ≡ (x.v4.contains r.0 a || covers_v4 a c)
  unfolding push_ipv4
  push_ipv4-covers a c (r4, r6) r' h = elim (Option-cases (x.v4.from_str (cidr_to_string c))) [
    | inl e ↦ ground (arith, e)
    | inr (d, e) ↦ ground (arith, e, x.v4.contains-push r4 d a)
  ]

  -- `push_ipv6` keeps the IPv4 ranges, and both where the CIDR has not eight bytes.
  push_ipv6-keeps :
      (c : Cidr) (r r' : x.v4.Ranges × x.v6.Ranges)
      → push_ipv6 x c r ≡ ok r'
      → (r'.0 ≡ r.0) × ((length c.ip == 8) ≡ false → r'.1 ≡ r.1)
  unfolding push_ipv6
  push_ipv6-keeps c (r4, r6) r' h = elim (Option-cases (x.v6.from_str (cidr_to_string c))) [
    | inl e ↦ ground (arith, e)
    | inr (d, e) ↦ ground (arith, e)
  ]

  -- A file whose addresses have 4 or 16 bytes, as the message says that they should.
  abbrev pub IsWide : Cidr → Type 0
  IsWide c = (length c.ip ≡ 4) ⊎ (length c.ip ≡ 16)

  push_cidrs-covers :
      (a : Ipv4Addr) (cs : List Cidr) (r r' : x.v4.Ranges × x.v6.Ranges)
      → push_cidrs x cs r ≡ ok r'
      → x.v4.contains r'.0 a ≡ (x.v4.contains r.0 a || any_v4 a cs)
  unfolding push_cidrs
  push_cidrs-covers a [] r r' h = ground arith
  push_cidrs-covers a (c ∷ cs) r r' h =
      let (r2, pushed, rest) =
        and_then-eq-ok (and_then (push_ipv4 x c r) (push_ipv6 x c)) (push_cidrs x cs) h in
      let (r1, p4, p6) = and_then-eq-ok (push_ipv4 x c r) (push_ipv6 x c) pushed in
      ground (
        arith,
        push_ipv4-covers a c r r1 p4,
        push_ipv6-keeps c r1 r2 p6,
        push_cidrs-covers a cs r2 r' rest,
      )

  push_cidrs_wide :
      (cs : List Cidr) (r r' : x.v4.Ranges × x.v6.Ranges)
      → All IsWide cs
      → push_cidrs x cs r ≡ ok r'
      → r'.1 ≡ r.1
  unfolding push_cidrs
  push_cidrs_wide [] r r' w h = ground arith
  push_cidrs_wide (c ∷ cs) r r' w h =
      let (r2, pushed, rest) =
        and_then-eq-ok (and_then (push_ipv4 x c r) (push_ipv6 x c)) (push_cidrs x cs) h in
      let (r1, p4, p6) = and_then-eq-ok (push_ipv4 x c r) (push_ipv6 x c) pushed in
      push_cidrs_wide cs r2 r' w.1 rest
      ∙ (push_ipv6-keeps c r1 r2 p6).1 (narrow w.0)
      ∙ push_ipv4-second c r r1 p4
    where
      narrow : IsWide c → (length c.ip == 8) ≡ false
      narrow (inl e) = ground arith
      narrow (inr e) = ground arith

  push_geo_ips-covers :
      (a : Ipv4Addr) (gs : List GeoIp) (r r' : x.v4.Ranges × x.v6.Ranges)
      → push_geo_ips x gs r ≡ ok r'
      → x.v4.contains r'.0 a ≡ (x.v4.contains r.0 a || any_v4 a (cn_cidrs gs))
  unfolding push_geo_ips
  push_geo_ips-covers a [] r r' h = ground arith
  push_geo_ips-covers a (g ∷ gs) r r' h = elim (Bool-cases (is_cn g.country_code)) [
    | inl cn ↦
        let (r1, pushed, rest) =
          and_then-eq-ok (push_cidrs x g.cidr r) (push_geo_ips x gs) (rw (cn, push_geo_ips) at h) in
        ground (
          arith,
          cn,
          push_cidrs-covers a g.cidr r r1 pushed,
          push_geo_ips-covers a gs r1 r' rest,
          any_v4-append a g.cidr (cn_cidrs gs),
        )
    | inr other ↦ rw other (push_geo_ips-covers a gs r r' (rw (other, push_geo_ips) at h))
  ]

  push_geo_ips_wide :
      (gs : List GeoIp) (r r' : x.v4.Ranges × x.v6.Ranges)
      → All IsWide (cn_cidrs gs)
      → push_geo_ips x gs r ≡ ok r'
      → r'.1 ≡ r.1
  unfolding push_geo_ips
  push_geo_ips_wide [] r r' w h = ground arith
  push_geo_ips_wide (g ∷ gs) r r' w h = elim (Bool-cases (is_cn g.country_code)) [
    | inl cn ↦
        let (r1, pushed, rest) =
          and_then-eq-ok (push_cidrs x g.cidr r) (push_geo_ips x gs) (rw (cn, push_geo_ips) at h) in
        let w' : All IsWide (g.cidr ++ cn_cidrs gs) = rw cn at w in
        push_geo_ips_wide gs r1 r' (All-right IsWide g.cidr (cn_cidrs gs) w') rest
        ∙ push_cidrs_wide g.cidr r r1 (All-left IsWide g.cidr (cn_cidrs gs) w') pushed
    | inr other ↦ push_geo_ips_wide gs r r' (rw other at w) (rw (other, push_geo_ips) at h)
  ]

module _ (x : Deps) (order : Order TrafficStreamRule) (geoip geosite : Option Text)
    (m : MatchProxy x) (gs : List GeoIp) (decoded : read_geo_ips x geoip ≡ ok gs)
    (loaded : from_geo_dat x geoip geosite ≡ ok m) where
  load : Load x geoip geosite m
  load = from_geo_dat-Load x geoip geosite m loaded

  same_ips : load.geo_ips ≡ gs
  same_ips = ground (arith, decoded, load.ips_read)

  -- After `from_geo_dat` an IPv4 address is direct exactly if a CIDR of an entry for "cn" with four
  -- address bytes covers it, and goes to a node otherwise.
  pub from_geo_dat-ipv4 :
      (a : Ipv4Addr)
      → traffic_stream x order m (ipv4 a) ≡ (if any_v4 x a (cn_cidrs gs) then direct else proxy)
  unfolding traffic_stream assemble
  from_geo_dat-ipv4 a = rw (
    ← load.assembled,
    push_geo_ips-covers x a load.geo_ips (x.v4.new, x.v6.new) load.combiners load.pushed,
    x.v4.contains-new a,
    same_ips,
  )

  -- No IPv6 address is direct after `from_geo_dat`, whatever IPv6 CIDRs the file has for "cn", if
  -- every address in it has 4 or 16 bytes.
  pub from_geo_dat-ipv6 :
      (a : Ipv6Addr) → All (IsWide x) (cn_cidrs gs) → traffic_stream x order m (ipv6 a) ≡ proxy
  unfolding traffic_stream assemble
  from_geo_dat-ipv6 a w = rw (
    ← load.assembled,
    push_geo_ips_wide x load.geo_ips (x.v4.new, x.v6.new) load.combiners (rw same_ips w)
        load.pushed,
    x.v6.contains-new a,
  )
