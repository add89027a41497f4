-- ===== src/Balancer/Sharing.antt =====
-- The balancer of src/banlancer.rs shared by tasks that run at once: each locks it to count its
-- connection, and locks it again to give the connection back, in any interleaving.
use kitty_proxy.Common.{
  ℕ, suc, ◌+◌, ◌^◌, ◌<◌, ◌≤◌, List, [], ◌∷◌, ◌++◌, ◌≡◌, refl, sym, ◌∙◌, ap, subst, Bool, true,
  false, Option, none, some, arith, length, if◌then◌else◌, Bool-cases, Option-cases, inl, inr, ◌⊎◌,
}
use kitty_proxy.Common.Outcome.{Outcome, ok}
use kitty_proxy.HashMap.Laws.{get-insert, get-insert_self, beq_refl}
use kitty_proxy.Types.{NodeInfo, node_eq}
use kitty_proxy.Balancer.{
  ConnectionStatsBanlancer, from_vec, incre_count_by_node_info, decre_count_by_node_info,
}
use kitty_proxy.Balancer.Counts.{
  count, set_count, incre_counted, decre_counted, unknown_node, listed, count-from_vec,
}

-- The balancer, and the node of every connection that is counted and not yet given back.
pub record Pool : Type 0 where
  pub balancer : ConnectionStatsBanlancer
  pub live : List NodeInfo

-- How many of them are the node's?
abbrev pub live_count : List NodeInfo → NodeInfo → ℕ
live_count [] n = 0
live_count (k ∷ ks) n = if node_eq.beq k n then suc (live_count ks n) else live_count ks n

-- A task counts its connection, of which there are less than a `usize` can count, or gives it back.
-- `E` are the errors of the code that holds the lock.
pub data Step (E : Type 0) (checks : Bool) (s t : Pool) : Type 0 where
  opened :
      (before after : List NodeInfo) (n : NodeInfo)
      → length s.live + 1 < 2 ^ 64
      → s.live ≡ before ++ after
      → incre_count_by_node_info {E = E} checks s.balancer n ≡ ok t.balancer
      → t.live ≡ before ++ n ∷ after
      → Step E checks s t
  closed :
      (before after : List NodeInfo) (n : NodeInfo)
      → s.live ≡ before ++ n ∷ after
      → decre_count_by_node_info {E = E} checks s.balancer n ≡ ok t.balancer
      → t.live ≡ before ++ after
      → Step E checks s t

-- A run from one pool to another.
pub data Run (E : Type 0) (checks : Bool) (s : Pool) : Pool → Type 0 where
  done : Run E checks s s
  then_step : {t u : Pool} → Run E checks s t → Step E checks t u → Run E checks s u

abbrev pub start : List NodeInfo → Pool
start ns = record { balancer = from_vec ns; live = [] }

-- Each node of the list is counted as often as it has a connection; no other node is counted.
abbrev pub IsCounted : List NodeInfo → Pool → Type 0
IsCounted ns s =
    (n : NodeInfo) → count s.balancer n ≡ (if listed ns n then some (live_count s.live n) else none)

pub live_count_le : (os : List NodeInfo) (n : NodeInfo) → live_count os n ≤ length os
live_count_le [] n = omega arith
live_count_le (k ∷ os) n = ground (arith, live_count_le os n)

live_count_without :
    (before after : List NodeInfo) (n m : NodeInfo)
    → live_count (before ++ n ∷ after) m ≡ (
        if node_eq.beq n m
        then suc (live_count (before ++ after) m)
        else live_count (before ++ after) m)
live_count_without [] after n m = refl
live_count_without (k ∷ before) after n m = ground (arith, live_count_without before after n m)

same_ok :
    {E : Type 0} {b c : ConnectionStatsBanlancer} {r : Outcome E ConnectionStatsBanlancer}
    → r ≡ ok b
    → r ≡ ok c
    → c ≡ b
same_ok e f = ground (arith, e, f)

module _ (ns : List NodeInfo) (s : Pool) (h : IsCounted ns s) (n : NodeInfo) where
  -- The counts of a node that is not in the list, and of one that is.
  unlisted : count s.balancer n ≡ none → listed ns n ≡ false
  unlisted e = ground (arith, h n)

  has_live :
      (c : ℕ) → count s.balancer n ≡ some c → (listed ns n ≡ true) × (c ≡ live_count s.live n)
  has_live c e = ground (arith, h n)

  -- A count that moves with the connections of its node.
  moved :
      (b : ConnectionStatsBanlancer) (live : List NodeInfo)
      → ((m : NodeInfo) → node_eq.beq n m ≡ false → live_count live m ≡ live_count s.live m)
      → ((count s.balancer n ≡ none) × (b ≡ s.balancer))
        ⊎ ((c : ℕ) × (count s.balancer n ≡ some c)
            × (b ≡ set_count s.balancer n (live_count live n)))
      → IsCounted ns (record { balancer = b; live = live })
  moved b live others change m = elim (Bool-cases (node_eq.beq n m)) [
    | inl here ↦ subst (λ k. count b k ≡ expected k) ((node_eq.beq_iff n m).0 here) (own change)
    | inr there ↦ other change there
  ]
    where
      expected : NodeInfo → Option ℕ
      expected k = if listed ns k then some (live_count live k) else none

      own :
          ((count s.balancer n ≡ none) × (b ≡ s.balancer))
            ⊎ ((c : ℕ) × (count s.balancer n ≡ some c)
                × (b ≡ set_count s.balancer n (live_count live n)))
          → count b n ≡ expected n
      own (inl (e, same)) = rw (same, e, unlisted e)
      own (inr (c, e, same)) =
          rw (
            same,
            get-insert_self s.balancer.statistics_map n (live_count live n),
            (has_live c e).0,
          )

      other :
          ((count s.balancer n ≡ none) × (b ≡ s.balancer))
            ⊎ ((c : ℕ) × (count s.balancer n ≡ some c)
                × (b ≡ set_count s.balancer n (live_count live n)))
          → node_eq.beq n m ≡ false
          → count b m ≡ expected m
      other (inl (e, same)) there = rw (same, h m, others m there)
      other (inr (c, e, same)) there = rw (
        same,
        get-insert s.balancer.statistics_map n m (live_count live n),
        there,
        h m,
        others m there,
      )

module _ (E : Type 0) (ns : List NodeInfo) (checks : Bool) (s t : Pool) (h : IsCounted ns s) where
  one_more :
      (before after : List NodeInfo) (n : NodeInfo) (c : ℕ)
      → s.live ≡ before ++ after
      → count s.balancer n ≡ some c
      → c + 1 ≡ live_count (before ++ n ∷ after) n
  one_more before after n c o present =
      rw (live_count_without before after n n, beq_refl n)
        (omega (arith, (has_live ns s h n c present).1, ap (λ l. live_count l n) o))

  counts_up :
      (before after : List NodeInfo) (n : NodeInfo) (c : ℕ)
      → length s.live + 1 < 2 ^ 64
      → s.live ≡ before ++ after
      → count s.balancer n ≡ some c
      → incre_count_by_node_info {E = E} checks s.balancer n
        ≡ ok (set_count s.balancer n (live_count (before ++ n ∷ after) n))
  counts_up before after n c room o present =
      incre_counted checks s.balancer n c present
        (omega (arith, live_count_le s.live n, (has_live ns s h n c present).1, room))
      ∙ ap (λ k. ok (set_count s.balancer n k)) (one_more before after n c o present)

  opened-IsCounted :
      (before after : List NodeInfo) (n : NodeInfo)
      → length s.live + 1 < 2 ^ 64
      → s.live ≡ before ++ after
      → incre_count_by_node_info {E = E} checks s.balancer n ≡ ok t.balancer
      → IsCounted ns (record { balancer = t.balancer; live = before ++ n ∷ after })
  opened-IsCounted before after n room o e =
      moved ns s h n t.balancer (before ++ n ∷ after)
        (λ m there.
          live_count_without before after n m ∙ rw there (sym (ap (λ l. live_count l m) o)))
        (elim (Option-cases (count s.balancer n)) [
          | inl absent ↦ inl (absent, same_ok (unknown_node checks s.balancer n absent).0 e)
          | inr (c, present) ↦
              inr (c, present, same_ok (counts_up before after n c room o present) e)
        ])

  counts_down :
      (before after : List NodeInfo) (n : NodeInfo) (c : ℕ)
      → s.live ≡ before ++ n ∷ after
      → count s.balancer n ≡ some c
      → decre_count_by_node_info {E = E} checks s.balancer n
        ≡ ok (set_count s.balancer n (live_count (before ++ after) n))
  counts_down before after n c o present =
      decre_counted checks s.balancer n (live_count (before ++ after) n)
        (present ∙ ap some one_less)
    where
      one_less : c ≡ suc (live_count (before ++ after) n)
      one_less =
          (has_live ns s h n c present).1
          ∙ ap (λ l. live_count l n) o
          ∙ live_count_without before after n n
          ∙ rw (beq_refl n)

  closed-IsCounted :
      (before after : List NodeInfo) (n : NodeInfo)
      → s.live ≡ before ++ n ∷ after
      → decre_count_by_node_info {E = E} checks s.balancer n ≡ ok t.balancer
      → IsCounted ns (record { balancer = t.balancer; live = before ++ after })
  closed-IsCounted before after n o e =
      moved ns s h n t.balancer (before ++ after)
        (λ m there.
          sym (ap (λ l. live_count l m) o ∙ live_count_without before after n m ∙ rw there))
        (elim (Option-cases (count s.balancer n)) [
          | inl absent ↦ inl (absent, same_ok (unknown_node checks s.balancer n absent).1 e)
          | inr (c, present) ↦ inr (c, present, same_ok (counts_down before after n c o present) e)
        ])

  Step-IsCounted : Step E checks s t → IsCounted ns t
  Step-IsCounted (opened before after n room o' e o) =
      subst (λ l. IsCounted ns (record { balancer = t.balancer; live = l })) (sym o)
        (opened-IsCounted before after n room o' e)
  Step-IsCounted (closed before after n o e o') =
      subst (λ l. IsCounted ns (record { balancer = t.balancer; live = l })) (sym o')
        (closed-IsCounted before after n o e)

-- However tasks that count a connection and give back one of those that are open interleave on the
-- balancer of a list of nodes, while less are open than a `usize` can count, every node of the list
-- is counted exactly as often as it has an open connection, and no other node is counted.
pub Run-IsCounted :
    (E : Type 0) (ns : List NodeInfo) (checks : Bool) (s : Pool)
    → Run E checks (start ns) s
    → IsCounted ns s
Run-IsCounted E ns checks s done = count-from_vec ns
Run-IsCounted E ns checks s (then_step {t} run step) =
    Step-IsCounted E ns checks t s (Run-IsCounted E ns checks t run) step

-- After any interleaving of tasks that count connections and give open ones back, from the
-- balancer of a list of nodes, whichever connection is open can be given back next: the decrement
-- of its node does not panic, and the run goes on without that connection.
pub Run-gives_back :
    (E : Type 0) (ns : List NodeInfo) (checks : Bool) (s : Pool) (before after : List NodeInfo)
    (n : NodeInfo)
    → Run E checks (start ns) s
    → s.live ≡ before ++ n ∷ after
    → (b : ConnectionStatsBanlancer) × (decre_count_by_node_info {E = E} checks s.balancer n ≡ ok b)
      × Run E checks (start ns) (record { balancer = b; live = before ++ after })
Run-gives_back E ns checks s before after n run o = elim (Option-cases (count s.balancer n)) [
  | inl absent ↦
      let e = (unknown_node {E = E} checks s.balancer n absent).1 in
      (s.balancer, e, then_step run (closed before after n o e refl))
  | inr (c, present) ↦
      let e =
        counts_down E ns checks s s (Run-IsCounted E ns checks s run) before after n c o present in
      (
        set_count s.balancer n (live_count (before ++ after) n),
        e,
        then_step run (closed before after n o e refl),
      )
]

-- After any interleaving of tasks that count connections and give open ones back, from the balancer
-- of a list of nodes, a further connection can be counted: while less are open than a `usize` can
-- count, the increment of its node does not panic.
pub Run-counts_one :
    (E : Type 0) (ns : List NodeInfo) (checks : Bool) (s : Pool) (n : NodeInfo)
    → Run E checks (start ns) s
    → length s.live + 1 < 2 ^ 64
    → (b : ConnectionStatsBanlancer) × (incre_count_by_node_info {E = E} checks s.balancer n ≡ ok b)
Run-counts_one E ns checks s n run room = elim (Option-cases (count s.balancer n)) [
  | inl absent ↦ (s.balancer, (unknown_node {E = E} checks s.balancer n absent).0)
  | inr (c, present) ↦ (
    _,
    counts_up E ns checks s s (Run-IsCounted E ns checks s run) [] s.live n c room refl present,
  )
]
