-- ===== src/Http/Crates.antt =====
-- What src/http_proxy.rs takes from `http` and `hyper`, and the text form of IP addresses, as
-- parameters: URIs, header values, and the client side of an HTTP connection.
use kitty_proxy.Common.{ℕ, Option, some, ◌≡◌}
use kitty_proxy.Text.{Text}
use kitty_proxy.Types.{Ipv4Addr, Ipv6Addr}

pub record Hyper : Type 1 where
  pub Authority : Type 0
  pub authority_from_str : Text → Option Authority
  pub port_u16 : Authority → Option ℕ
  pub host : Authority → Text
  pub Uri : Type 0
  pub authority : Uri → Option Authority
  pub scheme_str : Uri → Option Text
  -- `Uri::from_parts` on the parts of a URI with this scheme and authority put in.
  pub from_parts : Uri → Text → Authority → Option Uri
  pub from_parts-authority :
      (u v : Uri) (s : Text) (a : Authority) → from_parts u s a ≡ some v → authority v ≡ some a
  pub from_parts-scheme_str :
      (u v : Uri) (s : Text) (a : Authority) → from_parts u s a ≡ some v → scheme_str v ≡ some s
  pub HeaderValue : Type 0
  pub to_str : HeaderValue → Option Text
  pub ipv4_from_str : Text → Option Ipv4Addr
  pub ipv6_from_str : Text → Option Ipv6Addr
  -- A connection that speaks HTTP, its sender, responses and errors.
  pub Sender : Type 0
  pub Body : Type 0
  pub Error : Type 0

-- `headers` looks a name up, whatever its case.
pub record Request (x : Hyper) : Type 0 where
  pub method : Text
  pub uri : x.Uri
  pub headers : Text → Option x.HeaderValue
