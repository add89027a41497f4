-- ===== src/Http/Authority.antt =====
-- What `authority_addr` of src/http_proxy.rs makes of an authority, by the kind of its host.
use kitty_proxy.Common.{
  ℕ, ◌-◌, [], ◌∷◌, ◌++◌, ◌≡◌, refl, ◌∙◌, ap, true, false, Option, none, some, arith, length, take,
  length-append, take-append,
}
use kitty_proxy.Text.{Text}
use kitty_proxy.Types.{
  Address, domain_name_address, address_of_ip, Host, ipv4, ipv6, domain, v4, v6,
}
use kitty_proxy.Http.Crates.{Hyper}
use kitty_proxy.Http.{opens, closes, inside, port_of, bracketed, plain, authority_addr}

closes-append : (t : Text) → closes (t ++ b']' ∷ []) ≡ true
unfolding closes
closes-append [] = refl
closes-append (c ∷ []) = refl
closes-append (c ∷ d ∷ t) = closes-append (d ∷ t)

closes_bracketed : (t : Text) → closes (b'[' ∷ t ++ b']' ∷ []) ≡ true
unfolding closes
closes_bracketed [] = refl
closes_bracketed (c ∷ t) = closes-append (c ∷ t)

inside_bracketed : (t : Text) → inside (b'[' ∷ t ++ b']' ∷ []) ≡ t
inside_bracketed t = ap (λ n. take n (t ++ b']' ∷ [])) shorter ∙ take-append t (b']' ∷ [])
  where
    shorter : length (b'[' ∷ t ++ b']' ∷ []) - 2 ≡ length t
    shorter = omega (arith, length-append t (b']' ∷ []))

-- The address of a host at a port.
abbrev pub address_at : Host → ℕ → Address
address_at (ipv4 a) port = address_of_ip (v4 a) port
address_at (ipv6 a) port = address_of_ip (v6 a) port
address_at (domain name) port = domain_name_address name port

module _ (x : Hyper) where
  -- How a host is written in an authority: an IPv6 address in brackets, an IPv4 address bare, and
  -- as a name whatever is neither bracketed nor an IPv4 address.
  abbrev pub IsWritten : Host → Text → Type 0
  IsWritten (ipv4 a) s = (opens s ≡ false) × (x.ipv4_from_str s ≡ some a)
  IsWritten (ipv6 a) s = (t : Text) × (s ≡ b'[' ∷ t ++ b']' ∷ []) × (x.ipv6_from_str t ≡ some a)
  IsWritten (domain name) s = (s ≡ name) × (opens s ≡ false) × (x.ipv4_from_str s ≡ none)

  -- An authority in which a host is written, and whose port is given or follows from the scheme,
  -- has that host's address at that port.
  pub authority_addr-IsWritten :
      (scheme : Option Text) (authority : x.Authority) (port : ℕ) (h : Host)
      → port_of x scheme authority ≡ some port
      → IsWritten h (x.host authority)
      → authority_addr x scheme authority ≡ some (address_at h port)
  unfolding authority_addr plain bracketed
  authority_addr-IsWritten scheme authority port (ipv4 a) p (o, e) =
      rw (p, authority_addr, o, plain, e)
  authority_addr-IsWritten scheme authority port (domain name) p (e, o, n) =
      rw (p, authority_addr, o, plain, n) (ap (λ s. some (domain_name_address s port)) e)
  authority_addr-IsWritten scheme authority port (ipv6 a) p (t, e, i) =
      rw (p, authority_addr, e, closes_bracketed t, inside_bracketed t, bracketed, i)
