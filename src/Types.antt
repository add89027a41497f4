-- ===== src/Types.antt =====
-- src/types.rs: errors, SOCKS response codes, nodes and addresses; and the address types of the
-- standard library and of the `url` crate that the proxy passes around.
pub mod Display
pub mod Tests
use kitty_proxy.Common.{ℕ, ℕ_discrete}
use kitty_proxy.Text.{Text, text_eq}
use kitty_proxy.Text.Contains.{text_eq_iff}
use kitty_proxy.HashMap.{Eq, eq_of}

-- `std::net::Ipv4Addr` (four octets) and `Ipv6Addr` (eight 16-bit segments).
pub record Ipv4Addr : Type 0 where
  pub a : ℕ
  pub b : ℕ
  pub c : ℕ
  pub d : ℕ

pub record Ipv6Addr : Type 0 where
  pub s0 : ℕ
  pub s1 : ℕ
  pub s2 : ℕ
  pub s3 : ℕ
  pub s4 : ℕ
  pub s5 : ℕ
  pub s6 : ℕ
  pub s7 : ℕ

pub data IpAddr : Type 0 where
  v4 : Ipv4Addr → IpAddr
  v6 : Ipv6Addr → IpAddr

-- `std::net::SocketAddr`: `SocketAddr::new` keeps the family of the address.
pub record SocketAddr : Type 0 where
  pub ip : IpAddr
  pub port : ℕ

-- `url::Host`
pub data Host : Type 0 where
  ipv4 : Ipv4Addr → Host
  ipv6 : Ipv6Addr → Host
  domain : Text → Host

-- The kinds of `std::io::Error` that the proxy meets or makes.
pub data ErrorKind : Type 0 where
  unexpected_eof broken_pipe connection_reset connection_refused not_connected unsupported :
      ErrorKind
  other : ErrorKind

pub data ResponseCode : Type 0 where
  success failure rule_failure network_unreachable host_unreachable connection_refused :
      ResponseCode
  ttl_expired command_not_supported addr_type_not_supported http_bad_gateway : ResponseCode

pub data KittyProxyError : Type 0 where
  io : ErrorKind → KittyProxyError
  proxy : ResponseCode → KittyProxyError
  parse_error : KittyProxyError
  error : Text → KittyProxyError

-- The discriminants of the enum.
unfoldable pub discriminant : ResponseCode → ℕ
discriminant success = 0x00
discriminant failure = 0x01
discriminant rule_failure = 0x02
discriminant network_unreachable = 0x03
discriminant host_unreachable = 0x04
discriminant ResponseCode.connection_refused = 0x05
discriminant ttl_expired = 0x06
discriminant command_not_supported = 0x07
discriminant addr_type_not_supported = 0x08
discriminant http_bad_gateway = 0x502

-- `impl From<KittyProxyError> for ResponseCode`
unfoldable pub response_code : KittyProxyError → ResponseCode
response_code (proxy e) = e
response_code (io _) = failure
response_code parse_error = failure
response_code (error _) = failure

-- A signed number; `negsuc n` is -(n + 1).
pub data ℤ : Type 0 where
  pos : ℕ → ℤ
  negsuc : ℕ → ℤ

-- `node_number` is an `i8`.
pub record NodeInfo : Type 0 where
  pub socket_addr : SocketAddr
  pub node_number : ℤ

-- `NodeInfo::new`
abbrev pub new_node : IpAddr → ℕ → ℤ → NodeInfo
new_node ip_addr port node_number = record {
  socket_addr = record { ip = ip_addr; port = port };
  node_number = node_number;
}

-- `#[derive(PartialEq, Eq, Hash)]`
unfoldable pub NodeInfo-discrete : Discrete NodeInfo
unfolding ℕ_discrete
NodeInfo-discrete = hlevel ℕ_discrete

instance abbrev pub node_eq : Eq NodeInfo
node_eq = eq_of NodeInfo-discrete

instance abbrev pub text_key : Eq Text
text_key = record { beq = text_eq; beq_iff = text_eq_iff }

pub data Address : Type 0 where
  socket_address : SocketAddr → Address
  domain_name_address : Text → ℕ → Address

-- `impl From<NodeInfo> for Address`
unfoldable pub address_of_node : NodeInfo → Address
address_of_node n = socket_address n.socket_addr

-- `impl From<SocketAddr> for Address`
unfoldable pub address_of_socket : SocketAddr → Address
address_of_socket s = socket_address s

-- `impl From<SocketAddrV4> for Address`
unfoldable pub address_of_v4 : Ipv4Addr → ℕ → Address
address_of_v4 ip port = socket_address (record { ip = v4 ip; port = port })

-- `impl From<(String, u16)> for Address`, and that of `(&str, u16)`, which copies the name.
unfoldable pub address_of_domain : Text → ℕ → Address
address_of_domain dn port = domain_name_address dn port

unfoldable pub address_of_str : Text → ℕ → Address
address_of_str dn port = domain_name_address dn port

-- `impl From<&Address> for Address`: a clone.
unfoldable pub address_of_address : Address → Address
address_of_address addr = addr

-- `impl From<(IpAddr, u16)> for Address`
unfoldable pub address_of_ip : IpAddr → ℕ → Address
unfolding address_of_socket
address_of_ip (v4 ip) port = address_of_socket (record { ip = v4 ip; port = port })
address_of_ip (v6 ip) port = address_of_socket (record { ip = v6 ip; port = port })

host_of_socket : IpAddr → Host
host_of_socket (v4 a) = ipv4 a
host_of_socket (v6 a) = ipv6 a

-- `impl From<&Address> for Host`
unfoldable pub host_of_address : Address → Host
unfolding host_of_socket
host_of_address (socket_address s) = host_of_socket s.ip
host_of_address (domain_name_address addr _) = domain addr
