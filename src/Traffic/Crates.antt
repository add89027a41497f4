-- ===== src/Traffic/Crates.antt =====
-- What src/traffic_diversion.rs takes from other crates, as parameters: CIDR combiners
-- (`cidr_utils`), CIDR parsing (`cidr`), regular expressions (`regex`), the registrable root of a
-- domain name (`addr`), protobuf decoding (`prost`), files, and the order of hash maps.
use kitty_proxy.Common.{ℕ, List, Bool, false, ◌||◌, ◌≡◌, Option, ◌⊎◌}
use kitty_proxy.Text.{Text}
use kitty_proxy.HashMap.{Visit}
use kitty_proxy.Types.{Ipv4Addr, Ipv6Addr}
use kitty_proxy.V2ray.{GeoIpList, GeoSiteList}

-- A combiner keeps a set of addresses, made of CIDRs: `contains` after `push` is what it was, or
-- that the new CIDR covers the address.
pub record Combiner (Addr : Type 0) : Type 1 where
  pub Cidr : Type 0
  pub from_str : Text → Option Cidr
  pub covers : Cidr → Addr → Bool
  pub Ranges : Type 0
  pub new : Ranges
  pub push : Ranges → Cidr → Ranges
  pub contains : Ranges → Addr → Bool
  pub contains-new : (a : Addr) → contains new a ≡ false
  pub contains-push :
      (r : Ranges) (c : Cidr) (a : Addr) → contains (push r c) a ≡ (contains r a || covers c a)

pub record Deps : Type 1 where
  pub v4 : Combiner Ipv4Addr
  pub v6 : Combiner Ipv6Addr
  -- `IpCidr::from_str`
  pub ip_cidr_from_str : Text → Option (v4.Cidr ⊎ v6.Cidr)
  pub Regex : Type 0
  pub regex_new : Text → Option Regex
  pub is_match : Regex → Text → Bool
  -- `parse_domain_name`: `none` for an error, else what `root()` says.
  pub parse_domain_name : Text → Option (Option Text)
  pub read_file : Text → Option (List ℕ)
  pub decode_geo_ip : List ℕ → Option GeoIpList
  pub decode_geo_site : List ℕ → Option GeoSiteList

-- The rules of a domain map, in the order in which its iterator yields them.
abbrev pub Order : Type 0 → Type 0
Order V = Visit (Text × V)
