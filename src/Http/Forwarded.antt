-- ===== src/Http/Forwarded.antt =====
-- The request that src/http_proxy.rs passes on after `get_addr_from_header` has rewritten its URI.
use kitty_proxy.Common.{◌≡◌, refl, ◌∙◌, Option, none, some, Option-cases, inl, inr, subst}
use kitty_proxy.Common.Outcome.{Outcome, ok, err, panic}
use kitty_proxy.Text.{Text, text_eq}
use kitty_proxy.Types.{Address}
use kitty_proxy.Http.Crates.{Hyper, Request}
use kitty_proxy.Http.{
  default_port, port_of, authority_addr, host_addr, scheme_or_http, authority_of_header, reassemble,
  get_addr_from_header, request_host,
}

module _ (x : Hyper) where
  default_port-scheme_or_http :
      (scheme : Option Text) → default_port (some (scheme_or_http x scheme)) ≡ default_port scheme
  unfolding default_port text_eq
  default_port-scheme_or_http none = refl
  default_port-scheme_or_http (some s) = refl

  port_of-scheme_or_http :
      (scheme : Option Text) (a : x.Authority)
      → port_of x (some (scheme_or_http x scheme)) a ≡ port_of x scheme a
  unfolding port_of
  port_of-scheme_or_http scheme a = elim (Option-cases (x.port_u16 a)) [
    | inl e ↦ rw (e, port_of) (default_port-scheme_or_http scheme)
    | inr (port, e) ↦ rw (e, port_of)
  ]

  authority_addr-scheme_or_http :
      (scheme : Option Text) (a : x.Authority)
      → authority_addr x (some (scheme_or_http x scheme)) a ≡ authority_addr x scheme a
  unfolding authority_addr
  authority_addr-scheme_or_http scheme a = rw (port_of-scheme_or_http scheme a, authority_addr)

  -- The request of a result is found at the address of that result.
  Settled : Outcome (Unit {0}) (Address × Request x) → Type 0
  Settled (ok (h, req)) = (host_addr x req.uri ≡ some h) × (request_host x req ≡ ok (h, req))
  Settled (err _) = Unit
  Settled panic = Unit

  request_host_found :
      (req : Request x) (h : Address)
      → host_addr x req.uri ≡ some h
      → (host_addr x req.uri ≡ some h) × (request_host x req ≡ ok (h, req))
  unfolding request_host
  request_host_found req h e = (e, rw (e, request_host))

  host_addr-from_parts :
      (u v : x.Uri) (a : x.Authority) (host : Address)
      → x.from_parts u (scheme_or_http x (x.scheme_str u)) a ≡ some v
      → authority_addr x (x.scheme_str u) a ≡ some host
      → host_addr x v ≡ some host
  unfolding host_addr
  host_addr-from_parts u v a host made e =
      rw (x.from_parts-authority u v _ a made, host_addr, x.from_parts-scheme_str u v _ a made)
        (authority_addr-scheme_or_http (x.scheme_str u) a ∙ e)

  reassemble-Settled :
      (req : Request x) (a : x.Authority) (host : Address)
      → authority_addr x (x.scheme_str req.uri) a ≡ some host
      → Settled (reassemble x req a host)
  unfolding Settled reassemble
  reassemble-Settled req a host e =
      elim (Option-cases (x.from_parts req.uri (scheme_or_http x (x.scheme_str req.uri)) a)) [
        | inl failed ↦ rw (failed, reassemble) tt
        | inr (v, made) ↦
            rw (made, reassemble)
              (request_host_found (record req { uri = v }) host
                (host_addr-from_parts req.uri v a host made e))
      ]

  get_addr_from_header-Settled : (req : Request x) → Settled (get_addr_from_header x req)
  unfolding Settled get_addr_from_header
  get_addr_from_header-Settled req = elim (Option-cases (authority_of_header x req)) [
    | inl e ↦ rw (e, get_addr_from_header) tt
    | inr (a, e) ↦ elim (Option-cases (authority_addr x (x.scheme_str req.uri) a)) [
      | inl f ↦ rw (e, get_addr_from_header, f) tt
      | inr (host, f) ↦ rw (e, get_addr_from_header, f) (reassemble-Settled req a host f)
    ]
  ]

  request_host-Settled : (req : Request x) → Settled (request_host x req)
  unfolding Settled request_host
  request_host-Settled req = elim (Option-cases (host_addr x req.uri)) [
    | inr (h, e) ↦ rw (e, request_host) (request_host_found req h e)
    | inl e ↦ elim (Option-cases (x.authority req.uri)) [
      | inr (a, f) ↦ rw (e, request_host, f) tt
      | inl f ↦ rw (e, request_host, f) (get_addr_from_header-Settled req)
    ]
  ]

  -- Where a request is passed on with an address, its own URI has that address, though it may have
  -- come from a header; and to find the host of the forwarded request again gives the same address,
  -- and changes nothing more.
  pub request_host_twice :
      (req req' : Request x) (h : Address)
      → request_host x req ≡ ok (h, req')
      → (host_addr x req'.uri ≡ some h) × (request_host x req' ≡ ok (h, req'))
  unfolding Settled
  request_host_twice req req' h r = subst Settled r (request_host-Settled req)
