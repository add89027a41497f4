-- ===== src/V2ray.antt =====
-- src/v2ray_config.rs: the messages of the geo files that the rules are loaded from, after `prost`
-- has decoded them. The other messages of that file are never read.
use kitty_proxy.Common.{ℕ, Bool, List, Option, zero, suc}
use kitty_proxy.Text.{Text}
use kitty_proxy.Types.{ℤ, pos}

pub data TypedValue : Type 0 where
  bool_value : Bool → TypedValue
  int_value : ℤ → TypedValue

pub record Attribute : Type 0 where
  pub key : Text
  pub typed_value : Option TypedValue

-- `type` holds any `i32`.
pub record Domain : Type 0 where
  pub site_type : ℤ
  pub value : Text
  pub attribute : List Attribute

pub data SiteType : Type 0 where
  plain regex domain full : SiteType

-- The getter `r#type()`: an unknown number is the default, `Plain`.
unfoldable pub type_of : ℤ → SiteType
type_of (pos zero) = plain
type_of (pos (suc zero)) = regex
type_of (pos (suc (suc zero))) = domain
type_of (pos (suc (suc (suc zero)))) = full
type_of _ = plain

pub record Cidr : Type 0 where
  pub ip : List ℕ
  pub prefix : ℕ

pub record GeoIp : Type 0 where
  pub country_code : Text
  pub cidr : List Cidr
  pub reverse_match : Bool

pub record GeoIpList : Type 0 where
  pub entry : List GeoIp

pub record GeoSite : Type 0 where
  pub country_code : Text
  pub domain : List Domain

pub record GeoSiteList : Type 0 where
  pub entry : List GeoSite
