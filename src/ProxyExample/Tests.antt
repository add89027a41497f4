-- ===== src/ProxyExample/Tests.antt =====
-- The program of src/examples/proxy_example.rs over small geo files, and the theorem on it.
use kitty_proxy.Common.{ℕ, [], ◌≡◌, refl, true, none, some}
use kitty_proxy.Common.Outcome.{ok}
use kitty_proxy.Text.{codes, text_eq}
use kitty_proxy.Traffic.Load.Said.{cn_sites}
use kitty_proxy.Traffic.Load.Verdict.{verdict_of}
use kitty_proxy.Traffic.Load.Tests.{
  with_sites, entries, from_both, from_both_test, read_entries_test,
}
use kitty_proxy.Traffic.{traffic_stream}
use kitty_proxy.Traffic.Tests.{order}
use kitty_proxy.Balancer.{from_vec}
use kitty_proxy.Balancer.Tests.{machine}
use kitty_proxy.Http.{
  HttpEnv, HttpState, request_host, authority_addr, default_port, port_of, host_addr,
}
use kitty_proxy.Http.Tests.{uris, absolute, a_cn}
use kitty_proxy.Http.Server.{HttpProxy, serve, new, arrived, resume}
use kitty_proxy.Http.System.{System, Reach, serving}
use kitty_proxy.ProxyExample.{begin, http_vpn_node_infos, geoip_file, geosite_file}
use kitty_proxy.ProxyExample.Routes.{begin-task_for, task_for}

abbrev served : HttpProxy
served = record (new (codes "127.0.0.1") 10089 none) {
  banlancer = some (from_vec http_vpn_node_infos);
  is_serve = true;
}

begun : begin with_sites ℕ (λ ip port. true) ≡ ok (served, from_both)
unfolding begin new serve
begun = rw (from_both_test geoip_file geosite_file)

abbrev idle : HttpState uris
idle = record { balancer = some (from_vec http_vpn_node_infos); tunnels = [] }

abbrev waiting : System with_sites order uris true
waiting = record { rules = from_both; server = record { shared = idle; tasks = [] } }

opened :
    serve {E = ℕ} (λ ip port. true) (new (codes "127.0.0.1") 10089 none) http_vpn_node_infos
    ≡ ok served
unfolding serve
opened = refl

abbrev first : Reach with_sites order uris true from_both http_vpn_node_infos waiting
first = serving (λ ip port. true) (new (codes "127.0.0.1") 10089 none) served opened

abbrev net : HttpEnv uris
net = record {
  traffic_stream = traffic_stream with_sites order from_both;
  machine = machine;
  checks = true;
  connect = λ target. none;
  handshake = λ stream. ok tt;
  send_request = λ sender req. ok (codes "hi");
}

begin-task_for_example : resume uris net (arrived (absolute (codes "GET"))) idle ≡ (
  task_for with_sites order uris true
      (λ ip port. true)
      (verdict_of with_sites (cn_sites entries) (codes "a.cn"))
      a_cn
      (absolute (codes "GET")),
  idle,
)
unfolding request_host authority_addr default_port port_of host_addr text_eq
begin-task_for_example =
    begin-task_for with_sites order uris true (λ ip port. true) served from_both
      (record { entry = entries }) waiting first (absolute (codes "GET")) (absolute (codes "GET"))
      (codes "a.cn") 80 net begun (read_entries_test geosite_file) refl (λ host. refl) refl
