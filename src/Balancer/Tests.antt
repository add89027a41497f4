-- ===== src/Balancer/Tests.antt =====
-- Two nodes with fixed-point floats: the theorems at concrete inputs.
use mathlib.Core.List.{Nodup-cons, Nodup-nil, not-mem-nil, mem-cons}
use mathlib.Core.List.Perm
use mathlib.Core.Logic.Or
use mathlib.Core.HLevel.{⊥_prop}
use kitty_proxy.Common.{◌*◌, List, ◌≤◌, ℕ, ◌≡◌, ◌≢◌, refl, [], ◌∷◌, true, some, arith}
use kitty_proxy.Common.Outcome.{ok, panic}
use kitty_proxy.HashMap.{Visit, get, insert}
use kitty_proxy.Types.{NodeInfo, NodeInfo-discrete, node_eq, v4, pos, KittyProxyError}
use kitty_proxy.Balancer.Float.{fixed}
use kitty_proxy.Balancer.{
  ConnectionStatsBanlancer, Machine, from_vec, get_least_connected_node, incre_count_by_node_info,
  and_modify, add_one,
}
use kitty_proxy.Balancer.Counts.{count}
use kitty_proxy.Balancer.Least.{IsServing}
use kitty_proxy.Balancer.Choice.{IsLeast, get_least_connected_node-IsLeast}
use kitty_proxy.Balancer.Sharing.{Pool, Run, done, then_step, opened, start, Run-IsCounted}
use kitty_proxy.Balancer.Fairness.{Opens, unopened, one_more, Opens-IsFair}
use kitty_proxy.Balancer.Panics.{idle_zero_weight_panics}

abbrev pub in_order : {A : Type 0} → Visit A
in_order = record { iter = λ l. l; iter_perm = λ l. Perm.refl l }

abbrev pub machine : Machine
machine = record { float = fixed; counts = in_order; ratios = in_order }

-- A node at 10.0.0.x, port 1080.
abbrev pub node : ℕ → ℕ → NodeInfo
node x w = record {
  socket_addr = record { ip = v4 (record { a = 10; b = 0; c = 0; d = x }); port = 1080 };
  node_number = pos w;
}

-- Three connections to a node of weight 1 and four to one of weight 2.
abbrev pub busy : ConnectionStatsBanlancer
busy = record { statistics_map = (node 1 1, 3) ∷ (node 2 2, 4) ∷ [] }

least_test : get_least_connected_node {E = KittyProxyError} machine busy ≡ ok (node 2 2)
unfolding get_least_connected_node NodeInfo-discrete insert
least_test = refl

from_vec_test :
    (from_vec (node 1 1 ∷ node 2 1 ∷ node 1 1 ∷ [])).statistics_map
    ≡ (node 1 1, 0) ∷ (node 2 1, 0) ∷ []
unfolding from_vec insert NodeInfo-discrete
from_vec_test = refl

node_ne : {x y : ℕ} (v w : ℕ) → x ≢ y → node x v ≢ node y w
node_ne {x} {y} v w n e = ground arith

busy-IsServing : IsServing busy
busy-IsServing = record {
  distinct = Nodup-cons.1 (
    (λ t. Or.elim ⊥_prop (mem-cons.0 t) (node_ne 1 2 (omega arith)) not-mem-nil),
    Nodup-cons.1 (not-mem-nil, Nodup-nil),
  );
  some_node = λ e. cc;
  weights = ((1, refl, omega arith, omega arith), ((2, refl, omega arith, omega arith), tt));
}

get_least_connected_node-IsLeast_example :
    (n : NodeInfo) × (get_least_connected_node {E = KittyProxyError} machine busy ≡ ok n)
    × IsLeast machine busy n
get_least_connected_node-IsLeast_example =
    get_least_connected_node-IsLeast machine busy busy-IsServing

abbrev pub idle : ConnectionStatsBanlancer
idle = record { statistics_map = (node 1 0, 0) ∷ (node 2 1, 0) ∷ [] }

idle_zero_weight_panics_example :
    get_least_connected_node {E = KittyProxyError} machine idle ≡ panic
unfolding NodeInfo-discrete get
idle_zero_weight_panics_example =
    idle_zero_weight_panics machine idle (node 1 0) (node 2 1) 0
      (Nodup-cons.1 (
        (λ t. Or.elim ⊥_prop (mem-cons.0 t) (node_ne 0 1 (omega arith)) not-mem-nil),
        Nodup-cons.1 (not-mem-nil, Nodup-nil),
      ))
      refl refl refl (node_ne 0 1 (omega arith))

abbrev even : ConnectionStatsBanlancer
even = record { statistics_map = (node 1 2, 5) ∷ (node 2 2, 4) ∷ [] }

even-IsServing : IsServing even
even-IsServing = record {
  distinct = Nodup-cons.1 (
    (λ t. Or.elim ⊥_prop (mem-cons.0 t) (node_ne 2 2 (omega arith)) not-mem-nil),
    Nodup-cons.1 (not-mem-nil, Nodup-nil),
  );
  some_node = λ e. cc;
  weights = ((2, refl, omega arith, omega arith), ((2, refl, omega arith, omega arith), tt));
}

abbrev pub two_nodes : List NodeInfo
two_nodes = node 1 1 ∷ node 2 2 ∷ []

abbrev pool : ℕ → List NodeInfo → Pool
pool c live = record {
  balancer = record { statistics_map = (node 1 1, c) ∷ (node 2 2, 0) ∷ [] };
  live = live;
}

-- Two tasks take the first node.
two_live : Run KittyProxyError true (start two_nodes) (pool 2 (node 1 1 ∷ node 1 1 ∷ []))
unfolding from_vec insert NodeInfo-discrete incre_count_by_node_info
two_live =
    then_step
      (then_step {t = start two_nodes} {u = pool 1 (node 1 1 ∷ [])} done
        (opened [] [] (node 1 1) (omega arith) refl refl refl))
      (opened [] (node 1 1 ∷ []) (node 1 1) (omega arith) refl refl refl)

Run-IsCounted_example : count (pool 2 (node 1 1 ∷ node 1 1 ∷ [])).balancer (node 1 1) ≡ some 2
unfolding NodeInfo-discrete
Run-IsCounted_example =
    Run-IsCounted KittyProxyError two_nodes true (pool 2 (node 1 1 ∷ node 1 1 ∷ [])) two_live
      (node 1 1)

-- Three connections, to the node of weight 1 and then twice to that of weight 2.
abbrev counts : ℕ → ℕ → ConnectionStatsBanlancer
counts c d = record { statistics_map = (node 1 1, c) ∷ (node 2 2, d) ∷ [] }

three : Opens KittyProxyError machine true (from_vec two_nodes) 3 (counts 1 2)
unfolding get_least_connected_node incre_count_by_node_info NodeInfo-discrete insert get from_vec
    and_modify add_one
three =
    one_more {c = counts 1 1} (node 2 2)
      (one_more {c = counts 1 0} (node 2 2) (one_more (node 1 1) unopened refl refl) refl refl) refl
      refl

Opens-IsFair_example : ◌≤◌ (1 * 1) (1 * 2)
unfolding NodeInfo-discrete get
Opens-IsFair_example =
    Opens-IsFair KittyProxyError machine true two_nodes (λ e. cc)
      ((1, refl, omega arith, omega arith), ((2, refl, omega arith, omega arith), tt)) three
      (omega arith) (node 2 2) (node 1 1) 2 1 1 1 refl refl (omega arith) (omega arith)
      (omega arith) (omega arith) refl refl
