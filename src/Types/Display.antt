-- ===== src/Types/Display.antt =====
-- The text of an `Address` of src/types.rs, which is what the proxy dials.
use kitty_proxy.Common.{ℕ, [], ◌∷◌, ◌++◌, ◌≡◌, sym, ◌∙◌, ap, map}
use kitty_proxy.Text.{Text}
use kitty_proxy.Text.Decimal.{
  to_string, join, to_string_no_colon, last_part, value_from, value_from-to_string,
}
use kitty_proxy.Types.{
  Ipv4Addr, Ipv6Addr, v4, v6, IpAddr, Address, socket_address, domain_name_address,
}

-- `impl Display for Ipv4Addr`
unfoldable pub ipv4_to_string : Ipv4Addr → Text
ipv4_to_string ip = join b'.' (map to_string (ip.a ∷ ip.b ∷ ip.c ∷ ip.d ∷ []))

-- `ipv6_to_string` is the standard library's form of an IPv6 address.
module _ (ipv6_to_string : Ipv6Addr → Text) where
  host_part : IpAddr → Text
  unfolding ipv4_to_string
  host_part (v4 ip) = ipv4_to_string ip
  host_part (v6 ip) = b'[' ∷ ipv6_to_string ip ++ b']' ∷ []

  -- `impl Display for Address`, and `Debug`, which is the same.
  pub display : Address → Text
  unfolding host_part
  display (socket_address addr) = host_part addr.ip ++ b':' ∷ to_string addr.port
  display (domain_name_address addr port) = addr ++ b':' ∷ to_string port

  to_string_injective : (n m : ℕ) → to_string n ≡ to_string m → n ≡ m
  to_string_injective n m e =
      sym (value_from-to_string n) ∙ ap (value_from 0) e ∙ value_from-to_string m

  -- Two domain addresses of the same text are the same: what is dialled for a domain, and what is
  -- asked of an HTTP node, names its port and the whole of its name, also if the name has colons.
  pub display_injective :
      (name other : Text) (port other_port : ℕ)
      → display (domain_name_address name port) ≡ display (domain_name_address other other_port)
      → (name ≡ other) × (port ≡ other_port)
  unfolding display
  display_injective name other port other_port e =
      let (same, digits) =
        last_part b':' name other (to_string port) (to_string other_port) (to_string_no_colon port)
          (to_string_no_colon other_port) e in
      (same, to_string_injective port other_port digits)
