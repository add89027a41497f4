-- ===== src/Http/Server/Tests.antt =====
-- A proxy that serves one request, and the theorems on its tasks at it.
use kitty_proxy.Types.{NodeInfo}
use kitty_proxy.Http.Tests.{a_cn}
use kitty_proxy.Balancer.Choice.{IsLeast}
use kitty_proxy.Http.Server.Invariant.{Reach-chosen}
use kitty_proxy.Common.{[], ◌∷◌, ◌≡◌, refl, true, false, none, some, arith}
use kitty_proxy.Common.Outcome.{ok}
use kitty_proxy.Text.{codes, text_eq}
use kitty_proxy.HashMap.{get, insert}
use kitty_proxy.Types.{address_of_node, NodeInfo-discrete}
use kitty_proxy.Balancer.{
  ConnectionStatsBanlancer, from_vec, get_least_connected_node, incre_count_by_node_info, add_one,
  and_modify,
}
use kitty_proxy.Balancer.Counts.{count}
use kitty_proxy.Balancer.Tests.{node, two_nodes}
use kitty_proxy.Socks.Tests.{sending}
use kitty_proxy.Http.{
  HttpEnv, HttpState, upstream, authority_addr, get_addr_from_header, host_addr, default_port,
  port_of, request_host, least_node, chosen_host, incre, set_balancer,
}
use kitty_proxy.Http.Tests.{uris, network, line, absolute}
use kitty_proxy.Http.Server.{
  HttpProxy, new, serve, Task, arrived, chosen, exchanging, answered, resume, Server, Reach,
  serving, then_step, Step, accepted, resumed, segment, receive, pick, open_target, settle,
}
use kitty_proxy.Http.Server.Invariant.{Reach-count, Reach-answered}

abbrev net : HttpEnv uris
net = network line (ok (codes "hi"))

abbrev idle : HttpState uris
idle = record { balancer = some (from_vec two_nodes); tunnels = [] }

abbrev counting : ConnectionStatsBanlancer
counting = record { statistics_map = (node 1 1, 1) ∷ (node 2 2, 0) ∷ [] }

abbrev waiting : Task uris
waiting = exchanging (sending []) false (some (node 1 1)) (absolute (codes "GET"))

abbrev asked : Server uris
asked = record { shared = idle; tasks = arrived (absolute (codes "GET")) ∷ [] }

abbrev node_chosen : Server uris
node_chosen = record {
  shared = idle;
  tasks = chosen (address_of_node (node 1 1)) false (some (node 1 1)) (absolute (codes "GET")) ∷ [];
}

abbrev in_exchange : Server uris
in_exchange = record { shared = record idle { balancer = some counting }; tasks = waiting ∷ [] }

choosing : Step uris true asked node_chosen
unfolding resume segment receive pick settle least_node chosen_host request_host authority_addr
    get_addr_from_header text_eq default_port port_of host_addr get_least_connected_node
    NodeInfo-discrete get insert from_vec
choosing = resumed net [] [] _ refl (omega arith) refl refl refl

opening : Step uris true node_chosen in_exchange
unfolding resume segment open_target settle incre set_balancer text_eq incre_count_by_node_info
    and_modify add_one NodeInfo-discrete from_vec insert get
opening = resumed net [] [] _ refl (omega arith) refl refl refl

abbrev proxy : HttpProxy
proxy = new (codes "127.0.0.1") 10089 none

begun : Reach uris true two_nodes (record { shared = idle; tasks = [] })
unfolding serve new
begun =
    serving (λ ip port. true) proxy
      (record proxy { banlancer = some (from_vec two_nodes); is_serve = true }) refl

arrived_first : Reach uris true two_nodes asked
arrived_first = then_step begun (accepted (absolute (codes "GET")) refl refl)

reached : Reach uris true two_nodes in_exchange
reached = then_step (then_step arrived_first choosing) opening

Reach-count_example : count counting (node 1 1) ≡ some 1
unfolding NodeInfo-discrete
Reach-count_example = Reach-count uris true two_nodes in_exchange counting (node 1 1) reached refl

Reach-answered_example :
    (resume uris net waiting in_exchange.shared).0 ≡ answered (upstream (codes "hi"))
Reach-answered_example =
    Reach-answered uris true two_nodes in_exchange [] [] (sending []) (node 1 1)
      (absolute (codes "GET")) net tt (codes "hi") reached refl refl refl refl

Reach-chosen_example :
    (b : ConnectionStatsBanlancer) × (n : NodeInfo) × (asked.shared.balancer ≡ some b)
    × IsLeast net.machine b n
    × (resume uris net (arrived (absolute (codes "GET"))) asked.shared
        ≡ (chosen (address_of_node n) false (some n) (absolute (codes "GET")), asked.shared))
unfolding request_host authority_addr get_addr_from_header text_eq default_port port_of host_addr
Reach-chosen_example =
    Reach-chosen uris true two_nodes asked (absolute (codes "GET")) (absolute (codes "GET")) a_cn
      net arrived_first (λ e. cc)
      ((1, refl, omega arith, omega arith), ((2, refl, omega arith, omega arith), tt)) refl refl
