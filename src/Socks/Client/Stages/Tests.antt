-- ===== src/Socks/Client/Stages/Tests.antt =====
-- A client of src/socks_proxy.rs at each of its stages.
use kitty_proxy.Common.{◌≡◌, refl, none, some}
use kitty_proxy.HashMap.{get, insert}
use kitty_proxy.Text.Utf8.{is_utf8}
use kitty_proxy.Types.{NodeInfo-discrete}
use kitty_proxy.Traffic.{TrafficStreamRule}
use kitty_proxy.Balancer.{
  get_least_connected_node, incre_count_by_node_info, decre_count_by_node_info,
}
use kitty_proxy.Balancer.Counts.{set_count}
use kitty_proxy.Balancer.Tests.{node, busy}
use kitty_proxy.Socks.Request.{from_stream, contains_byte}
use kitty_proxy.Socks.Client.{
  Env, connected, handle_client, least_node, target_server, dialled, incre,
}
use kitty_proxy.Socks.Client.Tests.{network, start, silent}
use kitty_proxy.Socks.Client.Stages.{reading, stages}
use kitty_proxy.Socks.Client.Stages.Counted.{Counts, stages-Counts, handle_client-count}
use kitty_proxy.Balancer.{ConnectionStatsBanlancer, from_vec}
use kitty_proxy.Balancer.Counts.{count}
use kitty_proxy.Balancer.Sharing.{done}
use kitty_proxy.Balancer.Tests.{two_nodes}
use kitty_proxy.Types.{NodeInfo}
use kitty_proxy.Common.{arith, []}
use kitty_proxy.Socks.Client.{Session}
use kitty_proxy.Socks.Tests.{sending, to_domain}
use kitty_proxy.Socks.Client.Tests.{answering}

-- The node does not answer the request.
abbrev unanswered : Env
unanswered = network TrafficStreamRule.proxy (connected silent)

-- The node is counted from the second of its stages on.
stages_test :
    ((stages unanswered none 1 reading start).1.balancer ≡ some busy)
    × ((stages unanswered none 2 reading start).1.balancer ≡ some (set_count busy (node 2 2) 5))
unfolding stages from_stream get_least_connected_node incre_count_by_node_info NodeInfo-discrete get
    insert least_node target_server dialled incre contains_byte is_utf8
stages_test = (refl, refl)

abbrev fresh : Session
fresh = record { client = sending to_domain; balancer = some (from_vec two_nodes) }

stages-Counts_example :
    Counts unanswered two_nodes []
      (stages unanswered none 2 reading fresh).0
      (stages unanswered none 2 reading fresh).1
stages-Counts_example =
    stages-Counts unanswered two_nodes [] (omega arith) none fresh.client (from_vec two_nodes) done
      2

-- The node answers, and seven bytes come back.
abbrev answered : Env
answered = network TrafficStreamRule.proxy (connected answering)

handle_client-count_example :
    (c : ConnectionStatsBanlancer) × ((handle_client answered none fresh).1.balancer ≡ some c)
    × ((n : NodeInfo) → count c n ≡ count (from_vec two_nodes) n)
unfolding handle_client from_stream get_least_connected_node incre_count_by_node_info
    NodeInfo-discrete get insert least_node target_server dialled incre contains_byte is_utf8
    from_vec decre_count_by_node_info
handle_client-count_example =
    handle_client-count answered two_nodes [] (omega arith) none fresh.client (from_vec two_nodes)
      done (handle_client answered none fresh).1 7 refl
