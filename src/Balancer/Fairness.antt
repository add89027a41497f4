-- ===== src/Balancer/Fairness.antt =====
-- How the balancer of src/banlancer.rs spreads connections over its nodes.
use native.Mathlib.Nat.{mul-le-mul_right}
use kitty_proxy.Common.{
  ℕ, suc, ◌+◌, ◌*◌, ◌^◌, ◌<◌, ◌≤◌, List, [], ◌∷◌, ◌≡◌, ◌≢◌, refl, ap, subst, ◌∙◌, Bool, true, some,
  arith, length, All, Bool-cases, Option-cases, inl, inr, ◌⊎◌, if◌then◌else◌,
}
use kitty_proxy.Common.Outcome.{ok}
use kitty_proxy.HashMap.Laws.{get-insert}
use kitty_proxy.Types.{NodeInfo, node_eq, pos}
use kitty_proxy.Balancer.{
  ConnectionStatsBanlancer, Machine, from_vec, get_least_connected_node, incre_count_by_node_info,
}
use kitty_proxy.Balancer.Counts.{count, set_count, incre_counted}
use kitty_proxy.Balancer.Choice.{IsLeast, get_least_connected_node-IsLeast}
use kitty_proxy.Balancer.Sharing.{Run, done, then_step, opened, start, live_count_le, Run-IsCounted}
use kitty_proxy.Balancer.Serving.{HasWeight, from_vec-IsServing, Run-IsServing}

module _ (E : Type 0) (m : Machine) (checks : Bool) where
  -- That many connections, each counted for the node that the balancer chose for it.
  pub data Opens (b : ConnectionStatsBanlancer) : ℕ → ConnectionStatsBanlancer → Type 0 where
    unopened : Opens b 0 b
    one_more :
        {k : ℕ} {c d : ConnectionStatsBanlancer} (n : NodeInfo)
        → Opens b k c
        → get_least_connected_node {E = E} m c ≡ ok n
        → incre_count_by_node_info {E = E} checks c n ≡ ok d
        → Opens b (suc k) d

  module _ (ns : List NodeInfo) where
    pub record IsRun (k : ℕ) (b : ConnectionStatsBanlancer) : Type 0 where
      pub live : List NodeInfo
      pub as_many : length live ≡ k
      pub run : Run E checks (start ns) (record { balancer = b; live = live })

    Opens-IsRun :
        {k : ℕ} {b : ConnectionStatsBanlancer} → Opens (from_vec ns) k b → k < 2 ^ 64 → IsRun k b
    Opens-IsRun unopened room = record { live = []; as_many = refl; run = done }
    Opens-IsRun (one_more n opens got counted) room =
        let before = Opens-IsRun opens (omega arith) in
        record {
          live = n ∷ before.live;
          as_many = ap suc before.as_many;
          run =
              then_step before.run
                (opened [] before.live n (omega (arith, before.as_many)) refl counted refl);
        }

    -- No node is counted more often than connections were opened.
    count-le :
        {k : ℕ} {b : ConnectionStatsBanlancer} (n : NodeInfo) (c : ℕ)
        → IsRun k b
        → count b n ≡ some c
        → c ≤ k
    count-le n c r h =
        ground (arith, Run-IsCounted E ns checks _ r.run n, h, live_count_le r.live n, r.as_many)

  -- Without its last connection, a node of weight `w` has at most as many for its weight as a node of
  -- weight `v`.
  abbrev pub IsFair : ConnectionStatsBanlancer → Type 0
  IsFair b =
      (n j : NodeInfo) (w v c d : ℕ)
      → n.node_number ≡ pos w
      → j.node_number ≡ pos v
      → 0 < w
      → w < 128
      → 0 < v
      → v < 128
      → count b n ≡ some (suc c)
      → count b j ≡ some d
      → c * v ≤ d * w

  module _ (b : ConnectionStatsBanlancer) (n : NodeInfo) (old : ℕ) (known : count b n ≡ some old)
      (least : IsLeast m b n) (fair : IsFair b) where
    -- The counts after one more connection to `n`.
    count-after :
        (j : NodeInfo)
        → count (set_count b n (old + 1)) j
          ≡ (if node_eq.beq n j then some (old + 1) else count b j)
    count-after j = get-insert b.statistics_map n j (old + 1)

    same_node : (j : NodeInfo) → node_eq.beq n j ≡ true → n ≡ j
    same_node j e = (node_eq.beq_iff n j).0 e

    lowest :
        (j : NodeInfo) (w v d : ℕ)
        → n.node_number ≡ pos w
        → j.node_number ≡ pos v
        → 0 < w
        → w < 128
        → 0 < v
        → v < 128
        → count b j ≡ some d
        → old < 2 ^ 16
        → d < 2 ^ 16
        → old * v ≤ d * w
    lowest j w v d hn hj p q r s hd small small' =
        m.float.div_order old d w v small small' p q r s (rw (hn, hj) at (least.1 j old d known hd))

    raised_or_kept :
        (j : NodeInfo) (d : ℕ)
        → count (set_count b n (old + 1)) j ≡ some d
        → ((n ≡ j) × (d ≡ old + 1)) ⊎ (count b j ≡ some d)
    raised_or_kept j d h = elim (Bool-cases (node_eq.beq n j)) [
      | inl e ↦ inl (same_node j e, ground (arith, count-after j, h, e))
      | inr e ↦ inr (ground (arith, count-after j, h, e))
    ]

    module _ (small : old < 2 ^ 16)
        (all_small : (j : NodeInfo) (e : ℕ) → count b j ≡ some e → e < 2 ^ 16) where
      raised_node :
          (i j : NodeInfo) (w v c d : ℕ)
          → n ≡ i
          → suc c ≡ old + 1
          → i.node_number ≡ pos w
          → j.node_number ≡ pos v
          → 0 < w
          → w < 128
          → 0 < v
          → v < 128
          → ((n ≡ j) × (d ≡ old + 1)) ⊎ (count b j ≡ some d)
          → c * v ≤ d * w
      raised_node i j w v c d here e hi hj p q r s (inl (there, e')) =
          let same : v ≡ w =
            ground (arith, ap (λ k. k.node_number) here, ap (λ k. k.node_number) there, hi, hj) in
          rw same (mul-le-mul_right w (omega arith))
      raised_node i j w v c d here e hi hj p q r s (inr kept) =
          let less =
            lowest j w v d (ap (λ k. k.node_number) here ∙ hi) hj p q r s kept small
              (all_small j d kept) in
          let same : c ≡ old = omega arith in rw same less

      counted-IsFair : IsFair (set_count b n (old + 1))
      counted-IsFair i j w v c d hi hj p q r s ci cj =
          go (raised_or_kept i (suc c) ci) (raised_or_kept j d cj)
        where
          go :
              ((n ≡ i) × (suc c ≡ old + 1)) ⊎ (count b i ≡ some (suc c))
              → ((n ≡ j) × (d ≡ old + 1)) ⊎ (count b j ≡ some d)
              → c * v ≤ d * w
          go (inl (here, e)) other = raised_node i j w v c d here e hi hj p q r s other
          go (inr kept) (inr other) = fair i j w v c d hi hj p q r s kept other
          go (inr kept) (inl (there, e)) =
              let less =
                fair i n w v c old hi (ap (λ k. k.node_number) there ∙ hj) p q r s kept known in
              let up : old ≤ d = omega arith in omega (arith, less, mul-le-mul_right w up)

  -- From a list of at least one node, all of positive weight, when less than 2 ^ 16 connections are
  -- opened, each counted for the node that the balancer chose for it: a node's connections without its
  -- last one are, for its weight, no more than those of any other node for that one's weight.
  pub Opens-IsFair :
      (ns : List NodeInfo)
      → ns ≢ []
      → All HasWeight ns
      → {k : ℕ} {b : ConnectionStatsBanlancer} → Opens (from_vec ns) k b
      → k < 2 ^ 16
      → IsFair b
  Opens-IsFair ns some_node weights unopened small = λ i j w v c d hi hj p q r s ci cj.
      absurd
        (none_yet c (count-le ns i (suc c) (record { live = []; as_many = refl; run = done }) ci))
    where
      none_yet : (c : ℕ) → suc c ≤ 0 → ⊥
      none_yet c h = omega arith
  Opens-IsFair ns some_node weights {b} (one_more {k} {c = before} n opens got counted) small =
      elim (Option-cases (count before n)) [
        | inl unknown ↦ absurd (least.0 unknown)
        | inr (old, known) ↦ subst IsFair (next old known) (
            counted-IsFair before n old known least
              (Opens-IsFair ns some_node weights opens (omega arith))
              (omega (arith, count-le ns n old so_far known))
              (λ j e h. omega (arith, count-le ns j e so_far h)))
      ]
    where
      so_far : IsRun ns k before
      so_far = Opens-IsRun ns opens (omega arith)

      least : IsLeast m before n
      least =
          let (n', got', l) =
            get_least_connected_node-IsLeast m before
              (Run-IsServing so_far.run (from_vec-IsServing ns some_node weights)) {E = E} in
          let same : n' ≡ n = ground (arith, got, got') in subst (IsLeast m before) same l

      next : (old : ℕ) (known : count before n ≡ some old) → set_count before n (old + 1) ≡ b
      next old known =
          let raised =
            incre_counted {E = E} checks before n old known
              (omega (arith, count-le ns n old so_far known)) in
          ground (arith, counted, raised)
