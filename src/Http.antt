-- ===== src/Http.antt =====
-- src/http_proxy.rs: the target of an HTTP request, and `serve_connection`, which answers one.
pub mod Crates
pub mod Authority
pub mod Forwarded
pub mod Counting
pub mod Tunnels
pub mod Connect
pub mod Server
pub mod System
pub mod Tests
use kitty_proxy.Common.{
  ℕ, ◌-◌, List, [], ◌∷◌, ◌++◌, Bool, true, false, ◌&&◌, Option, none, some, length, take, drop,
  ◌==◌, if◌then◌else◌,
}
use kitty_proxy.Common.Outcome.{Outcome, ok, err, panic, ◌>>=◌, ◌>>◌, pure, lift, unwrap}
use kitty_proxy.Text.{Text, codes, text_eq}
use kitty_proxy.Types.{
  Address, domain_name_address, address_of_ip, address_of_node, host_of_address, Host, NodeInfo, v4,
  v6,
}
use kitty_proxy.Traffic.{TrafficStreamRule}
use kitty_proxy.Balancer.{
  ConnectionStatsBanlancer, Machine, get_least_connected_node, incre_count_by_node_info,
  decre_count_by_node_info,
}
use kitty_proxy.Socks.Stream.{Stream}
use Crates.{Hyper, Request}

-- `starts_with('[')`
abbrev pub opens : Text → Bool
opens [] = false
opens (c ∷ s) = c == b'['

-- `ends_with(']')`
unfoldable pub closes : Text → Bool
closes [] = false
closes (c ∷ []) = c == b']'
closes (c ∷ d ∷ s) = closes (d ∷ s)

-- `&host_str[1..host_str.len() - 1]`
abbrev pub inside : Text → Text
inside s = take (length s - 2) (drop 1 s)

-- The port that a scheme stands for.
unfoldable pub default_port : Option Text → Option ℕ
unfolding text_eq
default_port none = some 80
default_port (some scheme) =
    if text_eq scheme (codes "http")
    then some 80
    else if text_eq scheme (codes "https")
    then some 443
    else none

module _ (x : Hyper) where
  unfoldable pub port_of : Option Text → x.Authority → Option ℕ
  unfolding default_port
  port_of scheme authority = elim (x.port_u16 authority) [
    | some port ↦ some port
    | none ↦ default_port scheme
  ]

  bracketed : Text → ℕ → Option Address
  bracketed addr port = elim (x.ipv6_from_str addr) [
    | none ↦ none
    | some a ↦ some (address_of_ip (v6 a) port)
  ]

  plain : Text → ℕ → Option Address
  plain host_str port = elim (x.ipv4_from_str host_str) [
    | none ↦ some (domain_name_address host_str port)
    | some a ↦ some (address_of_ip (v4 a) port)
  ]

  unfoldable pub authority_addr : Option Text → x.Authority → Option Address
  unfolding bracketed plain closes port_of
  authority_addr scheme_str authority = elim (port_of scheme_str authority) [
    | none ↦ none
    | some port ↦
        if opens (x.host authority) && closes (x.host authority)
        then bracketed (inside (x.host authority)) port
        else plain (x.host authority) port
  ]

  unfoldable pub host_addr : x.Uri → Option Address
  unfolding authority_addr
  host_addr uri = elim (x.authority uri) [
    | none ↦ none
    | some authority ↦ authority_addr (x.scheme_str uri) authority
  ]

  -- The scheme that stays, or `http`.
  abbrev pub scheme_or_http : Option Text → Text
  scheme_or_http none = codes "http"
  scheme_or_http (some scheme) = scheme

  -- The request with its URI put together again; a failure panics.
  reassemble : Request x → x.Authority → Address → Outcome (Unit {0}) (Address × Request x)
  reassemble req authority host =
      elim (x.from_parts req.uri (scheme_or_http (x.scheme_str req.uri)) authority) [
        | none ↦ panic
        | some uri ↦ ok (host, record req { uri = uri })
      ]

  authority_of_header : Request x → Option x.Authority
  authority_of_header req = elim (req.headers (codes "Host")) [
    | none ↦ none
    | some value ↦ elim (x.to_str value) [ none ↦ none | some shost ↦ x.authority_from_str shost ]
  ]

  unfoldable pub get_addr_from_header : Request x → Outcome (Unit {0}) (Address × Request x)
  unfolding authority_addr reassemble authority_of_header
  get_addr_from_header req = elim (authority_of_header req) [
    | none ↦ err tt
    | some authority ↦ elim (authority_addr (x.scheme_str req.uri) authority) [
      | none ↦ err tt
      | some host ↦ reassemble req authority host
    ]
  ]

  -- The address of the request, and the request as it is passed on.
  unfoldable pub request_host : Request x → Outcome (Unit {0}) (Address × Request x)
  unfolding host_addr get_addr_from_header
  request_host req = elim (host_addr req.uri) [
    | some host ↦ ok (host, req)
    | none ↦ elim (x.authority req.uri) [ some _ ↦ err tt | none ↦ get_addr_from_header req ]
  ]

  -- What the proxy runs on.
  pub record HttpEnv : Type 1 where
    pub traffic_stream : Host → TrafficStreamRule
    pub machine : Machine
    pub checks : Bool
    pub connect : Address → Option Stream
    pub handshake : Stream → Outcome x.Error x.Sender
    pub send_request : x.Sender → Request x → Outcome x.Error x.Body

  pub data Response : Type 0 where
    bad_request empty : Response
    upstream : x.Body → Response

  -- `Response::builder().status(BAD_REQUEST).body(empty_body()).unwrap()`, which does not fail.
  abbrev pub make_bad_request : {E : Type 0} → Outcome E Response
  make_bad_request = ok bad_request

  -- A tunnel that a CONNECT request starts in a task of its own.
  pub record Tunnel : Type 0 where
    pub target_host : Address
    pub is_direct : Bool
    pub req : Request x

  pub record HttpState : Type 0 where
    pub balancer : Option ConnectionStatsBanlancer
    pub tunnels : List Tunnel

  abbrev pub OnHttp : Type 0 → Type 0
  OnHttp A = HttpState → Outcome x.Error A × HttpState

  module _ (env : HttpEnv) where
    least_node : OnHttp NodeInfo
    least_node s = elim s.balancer [
      | none ↦ (panic, s)
      | some b ↦ (get_least_connected_node env.machine b, s)
    ]

    set_balancer :
        HttpState
        → Outcome x.Error ConnectionStatsBanlancer
        → Outcome x.Error (Unit {0}) × HttpState
    set_balancer s (ok b) = (ok tt, record s { balancer = some b })
    set_balancer s (err e) = (err e, s)
    set_balancer s panic = (panic, s)

    incre : Option NodeInfo → OnHttp (Unit {0})
    unfolding set_balancer
    incre (some n) s = elim s.balancer [
      | none ↦ (panic, s)
      | some b ↦ set_balancer s (incre_count_by_node_info env.checks b n)
    ]
    incre none s = (panic, s)

    decre : Option NodeInfo → OnHttp (Unit {0})
    unfolding set_balancer
    decre (some n) s = elim s.balancer [
      | none ↦ (panic, s)
      | some b ↦ set_balancer s (decre_count_by_node_info env.checks b n)
    ]
    decre none s = (panic, s)

    chosen_host : Bool → Address → Option NodeInfo → Outcome x.Error Address
    chosen_host true host _ = ok host
    chosen_host false host none = panic
    chosen_host false host (some n) = ok (address_of_node n)

    spawn : Tunnel → OnHttp Response
    spawn t s = (ok empty, record s { tunnels = s.tunnels ++ t ∷ [] })

    -- Lines 400 to 424.
    exchange : Address → Bool → Option NodeInfo → Request x → OnHttp Response
    unfolding incre decre
    exchange target is_direct node_info req = do
      stream ← lift (unwrap (env.connect target))
      if is_direct then pure tt else incre node_info
      sender ← lift (env.handshake stream)
      resp ← lift (env.send_request sender req)
      if is_direct then pure tt else decre node_info
      pure (upstream resp)

    -- After the rule is known: lines 373 to 424.
    pub forward_request : Bool → Address → Request x → OnHttp Response
    unfolding least_node chosen_host spawn exchange text_eq
    forward_request is_direct host req = do
      node_info ← if is_direct then pure none else (do n ← least_node; pure (some n))
      target ← lift (chosen_host is_direct host node_info)
      if text_eq req.method (codes "CONNECT")
          then spawn (record { target_host = target; is_direct = is_direct; req = req })
          else exchange target is_direct node_info req

    pub route : Address → Request x → OnHttp Response
    unfolding forward_request
    route host req = elim (env.traffic_stream (host_of_address host)) [
      | TrafficStreamRule.reject ↦ pure empty
      | TrafficStreamRule.direct ↦ forward_request true host req
      | TrafficStreamRule.proxy ↦ forward_request false host req
    ]

    unfoldable pub serve_connection : Request x → OnHttp Response
    unfolding request_host route
    serve_connection req s = elim (request_host req) [
      | err _ ↦ (make_bad_request, s)
      | panic ↦ (panic, s)
      | ok (host, request) ↦ route host request s
    ]
