-- ===== src/Http/Tests.antt =====
-- Requests over a small model of URIs, and the theorems on src/http_proxy.rs at them.
use kitty_proxy.Common.{
  List, ◌++◌, ◌≢◌, ℕ, ℕ, [], ◌≡◌, refl, sym, ap, true, false, Option, none, some, arith, inr,
  if◌then◌else◌,
}
use kitty_proxy.Common.Outcome.{Outcome, ok, err}
use kitty_proxy.Text.{Text, codes, text_eq}
use kitty_proxy.HashMap.{get, insert}
use kitty_proxy.Types.{
  Address, domain_name_address, address_of_ip, address_of_node, ipv6, v6, Ipv6Addr,
  NodeInfo-discrete,
}
use kitty_proxy.Traffic.{TrafficStreamRule}
use kitty_proxy.Balancer.{get_least_connected_node}
use kitty_proxy.Balancer.Counts.{set_count}
use kitty_proxy.Balancer.Tests.{machine, node, busy}
use kitty_proxy.Socks.Stream.{Stream}
use kitty_proxy.Socks.Tests.{sending}
use kitty_proxy.Http.Crates.{Hyper, Request}
use kitty_proxy.Http.{
  HttpEnv, HttpState, request_host, serve_connection, authority_addr, port_of, default_port,
  host_addr, get_addr_from_header,
}
use kitty_proxy.Http.Authority.{authority_addr-IsWritten}
use kitty_proxy.Http.Forwarded.{request_host_twice}
use kitty_proxy.Socks.Stream.{write_all}
use kitty_proxy.Socks.Client.{copied}
use kitty_proxy.Http.{Tunnel}
use kitty_proxy.Http.Tunnels.{TunnelEnv, tunnel, connect_request, tunnel_node}
use kitty_proxy.Http.Counting.{exchange_leak}

abbrev OneAuthority : Type 0
OneAuthority = Option ℕ × Text

abbrev OneUri : Type 0
OneUri = Option OneAuthority × Option Text

abbrev localhost : Ipv6Addr
localhost = record { s0 = 0; s1 = 0; s2 = 0; s3 = 0; s4 = 0; s5 = 0; s6 = 0; s7 = 1 }

abbrev pub uris : Hyper
uris = record {
  Authority = OneAuthority;
  authority_from_str = λ t. some (none, t);
  port_u16 = λ a. a.0;
  host = λ a. a.1;
  Uri = OneUri;
  authority = λ u. u.0;
  scheme_str = λ u. u.1;
  from_parts = λ u s a. some (some a, some s);
  from_parts-authority =
      λ u v s a e. ap (λ (o : Option OneUri). elim o [ none ↦ none | some w ↦ w.0 ]) (sym e);
  from_parts-scheme_str =
      λ u v s a e. ap (λ (o : Option OneUri). elim o [ none ↦ none | some w ↦ w.1 ]) (sym e);
  HeaderValue = Text;
  to_str = some;
  ipv4_from_str = λ t. none;
  ipv6_from_str = λ t. if text_eq t (codes "::1") then some localhost else none;
  Sender = Unit;
  Body = Text;
  Error = ℕ;
}

authority_addr-IsWritten_example :
    authority_addr uris (some (codes "https")) (none, codes "[::1]")
    ≡ some (address_of_ip (v6 localhost) 443)
unfolding port_of default_port text_eq
authority_addr-IsWritten_example =
    authority_addr-IsWritten uris (some (codes "https")) (none, codes "[::1]") 443 (ipv6 localhost)
      refl (codes "::1", refl, refl)

-- A request whose URI is a path, with a Host header.
abbrev with_header : Text → Request uris
with_header method = record {
  method = method;
  uri = (none, none);
  headers = λ name. some (codes "a.cn");
}

abbrev pub absolute : Text → Request uris
absolute method = record {
  method = method;
  uri = (some (none, codes "a.cn"), some (codes "http"));
  headers = λ name. some (codes "a.cn");
}

abbrev pub a_cn : Address
a_cn = domain_name_address (codes "a.cn") 80

request_host_twice_example :
    (host_addr uris (absolute (codes "GET")).uri ≡ some a_cn)
    × (request_host uris (absolute (codes "GET")) ≡ ok (a_cn, absolute (codes "GET")))
unfolding request_host authority_addr get_addr_from_header text_eq default_port port_of host_addr
request_host_twice_example =
    request_host_twice uris (with_header (codes "GET")) (absolute (codes "GET")) a_cn refl

abbrev pub network : Option Stream → Outcome ℕ Text → HttpEnv uris
network stream answer = record {
  traffic_stream = λ host. TrafficStreamRule.proxy;
  machine = machine;
  checks = true;
  connect = λ target. stream;
  handshake = λ stream. ok tt;
  send_request = λ sender req. answer;
}

abbrev start : HttpState uris
start = record { balancer = some busy; tunnels = [] }

abbrev pub line : Option Stream
line = some (sending [])

exchange_leak_example :
    serve_connection uris (network line (err 1)) (absolute (codes "GET")) start
    ≡ (err 1, record start { balancer = some (set_count busy (node 2 2) 5) })
unfolding request_host authority_addr get_addr_from_header text_eq default_port port_of host_addr
    get_least_connected_node NodeInfo-discrete get insert
exchange_leak_example =
    exchange_leak uris (network line (err 1)) (absolute (codes "GET")) start {host = a_cn}
      {request = absolute (codes "GET")} {b = busy} {n = node 2 2} refl refl refl refl {c = 4}
      {stream = sending []} refl refl (omega arith) refl 1 (inr (tt, refl, refl))

-- A node that answers every request as given, and a copy that leaves a mark on the client's side.
abbrev under : Text → TunnelEnv uris
under answer = record {
  connect = λ target. some (sending []);
  read = λ target. some (answer, target);
  copy_bidirectional = λ client target. (copied 1 2, record client { is_shut = true });
  uri_to_string = λ u. codes "a.cn:443";
  version_to_string = λ req. codes "HTTP/1.1";
}

abbrev to_node : Tunnel uris
to_node = record {
  target_host = address_of_node (node 1 1);
  is_direct = false;
  req = absolute (codes "CONNECT");
}

abbrev asking : Stream
asking = record (sending []) {
  output = connect_request uris (under []) (absolute (codes "CONNECT"));
}

tunnel_node_example :
    ((rest : List ℕ)
      → codes "HTTP/1.1 403" ≡ codes "HTTP/1.1 200" ++ rest
      → tunnel uris (under (codes "HTTP/1.1 403")) (sending (codes "hi")) to_node
        ≡ (ok tt, record (sending (codes "hi")) { is_shut = true }))
    × (((rest : List ℕ) → codes "HTTP/1.1 403" ≢ codes "HTTP/1.1 200" ++ rest)
        → tunnel uris (under (codes "HTTP/1.1 403")) (sending (codes "hi")) to_node
          ≡ (ok tt, sending (codes "hi")))
unfolding write_all connect_request
tunnel_node_example =
    tunnel_node uris (under (codes "HTTP/1.1 403")) (sending (codes "hi")) to_node
      {target = sending []} {asked = asking} {answered = asking} {answer = codes "HTTP/1.1 403"}
      refl refl refl refl
