-- ===== src/Types/Tests.antt =====
-- Equality of nodes of src/types.rs, run on two of them.
use kitty_proxy.Common.{◌≡◌, refl, true, false}
use kitty_proxy.Types.{v4, NodeInfo, NodeInfo-discrete, node_eq, pos}

abbrev n1 : NodeInfo
n1 = record {
  socket_addr = record { ip = v4 (record { a = 1; b = 2; c = 3; d = 4 }); port = 80 };
  node_number = pos 1;
}

node_eq_test : node_eq.beq n1 n1 ≡ true
unfolding NodeInfo-discrete
node_eq_test = refl

node_ne_test : node_eq.beq n1 (record n1 { node_number = pos 2 }) ≡ false
unfolding NodeInfo-discrete
node_ne_test = refl
