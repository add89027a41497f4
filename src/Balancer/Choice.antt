-- ===== src/Balancer/Choice.antt =====
-- What `get_least_connected_node` promises: a node of least connections for its weight.
use mathlib.Core.Bool.{Bool-set}
use mathlib.Core.Logic.{∥∥₁_elim}
use mathlib.Core.HLevel.{⊥_prop}
use native.Mathlib.Nat.{ℕ_set}
use kitty_proxy.Common.{
  ℕ, ◌<◌, ◌≤◌, ◌^◌, ◌≡◌, ◌≢◌, sym, ◌∙◌, ap, true, false, none, some, arith, Mem, dec_lt,
}
use kitty_proxy.Common.Outcome.{Outcome, ok}
use kitty_proxy.HashMap.Members.{All-mem, mem_of_get, get_of_mem}
use kitty_proxy.Types.{NodeInfo, node_eq, pos}
use kitty_proxy.Balancer.Float.{is_le}
use kitty_proxy.Balancer.{ConnectionStatsBanlancer, Machine, ratio, get_least_connected_node}
use kitty_proxy.Balancer.Counts.{count}
use kitty_proxy.Balancer.Least.{
  IsServing, Chosen, compared, chosen, in_compared, from_compared, get_least-min_by, with_ratio,
}

-- `n` is a node of the balancer, and no node's ratio of connections to weight is below that of `n`.
abbrev pub IsLeast : Machine → ConnectionStatsBanlancer → NodeInfo → Type 0
IsLeast m b n =
    (count b n ≢ none)
    × ((k : NodeInfo) (c d : ℕ)
        → count b n ≡ some c
        → count b k ≡ some d
        → is_le (m.float.partial_cmp (ratio m.float (n, c)) (ratio m.float (k, d))) ≡ true)

module _ (m : Machine) (b : ConnectionStatsBanlancer) (v : IsServing b) where
  -- An entry that the comparison meets is the node's count.
  entry_count :
      (n : NodeInfo) (r : m.float.Val) (e : NodeInfo × ℕ)
      → Mem e b.statistics_map
      → with_ratio m.float e ≡ (n, r)
      → (count b n ≡ some e.1) × (r ≡ ratio m.float (n, e.1))
  entry_count n r e t same =
      (rw (← name) (get_of_mem ℕ_set b.statistics_map e.0 e.1 v.distinct t), value)
    where
      name : e.0 ≡ n
      name = ap (λ (p : NodeInfo × m.float.Val). p.0) same

      value : r ≡ ratio m.float (n, e.1)
      value =
          sym (ap (λ (p : NodeInfo × m.float.Val). p.1) same)
          ∙ ap (λ (k : NodeInfo). ratio m.float (k, e.1)) name

  Chosen-IsLeast :
      {E : Type 0} (o : Outcome E NodeInfo) (c : Chosen m.float (compared m b) o)
      → IsLeast m b c.node
  Chosen-IsLeast o c = (
    λ missing.
        ∥∥₁_elim (from_compared m b v c.node c.value c.present) ⊥_prop
          λ (e, t, same). cc ((entry_count c.node c.value e t same).0),
    λ k x d hx hd.
        ∥∥₁_elim (from_compared m b v c.node c.value c.present) (Bool-set _ _) λ (e, t, same).
          lowest e k x d (entry_count c.node c.value e t same) hx
            (mem_of_get b.statistics_map k d hd),
  )
    where
      lowest :
          (e : NodeInfo × ℕ) (k : NodeInfo) (x d : ℕ)
          → (count b c.node ≡ some e.1) × (c.value ≡ ratio m.float (c.node, e.1))
          → count b c.node ≡ some x
          → Mem (k, d) b.statistics_map
          → is_le (m.float.partial_cmp (ratio m.float (c.node, x)) (ratio m.float (k, d))) ≡ true
      lowest e k x d (here, value) hx t =
          let same : e.1 ≡ x = ground (arith, here, hx) in
          rw (← same, ← value)
            (All-mem (λ y. is_le (m.float.partial_cmp c.value y.1) ≡ true) (λ y. Bool-set _ _)
              (compared m b) c.lowest (in_compared m b k d t))

  -- With at least one node, distinct nodes and positive weights the balancer returns a node, and
  -- that node is least: no node has a smaller ratio of connections to weight.
  pub get_least_connected_node-IsLeast :
      {E : Type 0} → (n : NodeInfo) × (get_least_connected_node {E = E} m b ≡ ok n) × IsLeast m b n
  get_least_connected_node-IsLeast {E} =
      let c = chosen m b v {E = E} in
      (c.node, get_least-min_by m b v.distinct ∙ c.returned, Chosen-IsLeast _ c)

  IsLeast-count :
      (n k : NodeInfo) (c d w : ℕ)
      → IsLeast m b n
      → n.node_number ≡ pos w
      → k.node_number ≡ pos w
      → 0 < w
      → w < 128
      → count b n ≡ some c
      → count b k ≡ some d
      → c < 2 ^ 22
      → c ≤ d
  IsLeast-count n k c d w (_, low) hn hk p q hc hd bound = elim (dec_lt d c) [
    | yes less ↦ absurd (contradiction less (low k c d hc hd))
    | no more ↦ omega arith
  ]
    where
      contradiction :
          d < c
          → is_le (m.float.partial_cmp (ratio m.float (n, c)) (ratio m.float (k, d))) ≡ true
          → ⊥
      contradiction less le = clash (rw (hn, hk, m.float.div_strict d c w less bound p q) at le)
        where
          clash : false ≡ true → ⊥
          clash e = cc

  -- With distinct nodes of positive weight: the node that is returned has at most as many
  -- connections as any other node of its weight, if its own are below 2 ^ 22, where the quotients of
  -- 32-bit floats are told apart.
  pub get_least_connected_node-count :
      {E : Type 0} (n k : NodeInfo) (c d w : ℕ)
      → get_least_connected_node {E = E} m b ≡ ok n
      → n.node_number ≡ pos w
      → k.node_number ≡ pos w
      → 0 < w
      → w < 128
      → count b n ≡ some c
      → count b k ≡ some d
      → c < 2 ^ 22
      → c ≤ d
  get_least_connected_node-count {E} n k c d w got hn hk p q hc hd bound =
      let (n', got', least) = get_least_connected_node-IsLeast {E = E} in
      let same : n' ≡ n = ground (arith, got, got') in
      IsLeast-count n k c d w (rw (← same) least) hn hk p q hc hd bound
