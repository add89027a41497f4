-- ===== src/Balancer/Counts.antt =====
-- The counts of src/banlancer.rs: `from_vec`, `incre_count_by_node_info` and
-- `decre_count_by_node_info` as operations on the map from nodes to numbers.
use kitty_proxy.Common.{
  ℕ, suc, ◌+◌, ◌^◌, ◌<◌, List, [], ◌∷◌, ◌≡◌, refl, ◌∙◌, ap, Bool, false, Option, none, some, arith,
  if◌then◌else◌, ◌||◌,
}
use kitty_proxy.Common.Outcome.{Outcome, ok, panic}
use kitty_proxy.HashMap.{HashMap, get, insert}
use kitty_proxy.HashMap.Laws.{get-insert, insert-insert, insert_same, get-insert_self}
use kitty_proxy.Types.{NodeInfo, node_eq}
use kitty_proxy.Balancer.{
  ConnectionStatsBanlancer, insert_all, from_vec, add_one, sub_one, and_modify,
  incre_count_by_node_info, decre_count_by_node_info,
}

abbrev pub count : ConnectionStatsBanlancer → NodeInfo → Option ℕ
count b n = get b.statistics_map n

abbrev pub set_count : ConnectionStatsBanlancer → NodeInfo → ℕ → ConnectionStatsBanlancer
set_count b n c = record { statistics_map = insert b.statistics_map n c }

module _ {E : Type 0} (f : ℕ → Outcome E ℕ) where
  and_modify-none :
      (m : HashMap NodeInfo ℕ) (k : NodeInfo) → get m k ≡ none → and_modify f m k ≡ ok m
  unfolding get and_modify
  and_modify-none [] k h = refl
  and_modify-none ((j, v) ∷ m) k h = ground (arith, and_modify-none m k)

  and_modify-some :
      (m : HashMap NodeInfo ℕ) (k : NodeInfo) (v w : ℕ)
      → get m k ≡ some v
      → f v ≡ ok w
      → and_modify f m k ≡ ok (insert m k w)
  unfolding get and_modify insert
  and_modify-some [] k v w h e = cc
  and_modify-some ((j, u) ∷ m) k v w h e = ground (arith, and_modify-some m k v w)

  and_modify_panic :
      (m : HashMap NodeInfo ℕ) (k : NodeInfo) (v : ℕ)
      → get m k ≡ some v
      → f v ≡ panic
      → and_modify f m k ≡ panic
  unfolding get and_modify
  and_modify_panic [] k v h e = cc
  and_modify_panic ((j, u) ∷ m) k v h e = ground (arith, and_modify_panic m k v)

module _ {E : Type 0} (checks : Bool) (b : ConnectionStatsBanlancer) (n : NodeInfo) where
  pub incre_counted :
      (c : ℕ)
      → count b n ≡ some c
      → c + 1 < 2 ^ 64
      → incre_count_by_node_info {E = E} checks b n ≡ ok (set_count b n (c + 1))
  unfolding incre_count_by_node_info
  incre_counted c h p =
      rw (and_modify-some (add_one {E = E} checks) b.statistics_map n c (c + 1) h (ground arith))

  pub decre_counted :
      (c : ℕ)
      → count b n ≡ some (suc c)
      → decre_count_by_node_info {E = E} checks b n ≡ ok (set_count b n c)
  unfolding decre_count_by_node_info
  decre_counted c h =
      rw (and_modify-some (sub_one {E = E} checks) b.statistics_map n (suc c) c h refl)

  pub unknown_node :
      count b n ≡ none
      → (incre_count_by_node_info {E = E} checks b n ≡ ok b)
        × (decre_count_by_node_info {E = E} checks b n ≡ ok b)
  unfolding incre_count_by_node_info decre_count_by_node_info
  unknown_node h = (
    rw (and_modify-none (add_one {E = E} checks) b.statistics_map n h),
    rw (and_modify-none (sub_one {E = E} checks) b.statistics_map n h),
  )

module _ {E : Type 0} (checks : Bool) (b : ConnectionStatsBanlancer) (n : NodeInfo) where
  -- A node's connection that is counted and then given back leaves the balancer as it was: neither
  -- call fails while the count is below the largest `usize`.
  pub incre-decre :
      (c : ℕ)
      → count b n ≡ some c
      → c + 1 < 2 ^ 64
      → (incre_count_by_node_info {E = E} checks b n ≡ ok (set_count b n (c + 1)))
        × (decre_count_by_node_info {E = E} checks (set_count b n (c + 1)) n ≡ ok b)
  incre-decre c h p = (incre_counted checks b n c h p, back)
    where
      seen : count (set_count b n (c + 1)) n ≡ some (suc c)
      seen = get-insert_self b.statistics_map n (c + 1) ∙ ap some (omega arith)

      back : decre_count_by_node_info {E = E} checks (set_count b n (c + 1)) n ≡ ok b
      back =
          decre_counted checks _ n c seen
          ∙ ap (λ m. ok (record { statistics_map = m }))
              (insert-insert b.statistics_map n (c + 1) c ∙ insert_same b.statistics_map n c h)

-- Is the node in the list?
abbrev pub listed : List NodeInfo → NodeInfo → Bool
listed [] n = false
listed (k ∷ ns) n = node_eq.beq k n || listed ns n

get-insert_all :
    (m : HashMap NodeInfo ℕ) (ns : List NodeInfo) (n : NodeInfo)
    → get (insert_all m ns) n ≡ (if listed ns n then some 0 else get m n)
unfolding insert_all
get-insert_all m [] n = refl
get-insert_all m (k ∷ ns) n = ground (arith, get-insert_all (insert m k 0) ns n, get-insert m k n 0)

-- The balancer of a list of nodes counts no connection for each of them and knows no other node.
pub count-from_vec :
    (ns : List NodeInfo) (n : NodeInfo)
    → count (from_vec ns) n ≡ (if listed ns n then some 0 else none)
unfolding from_vec get
count-from_vec ns n = get-insert_all [] ns n
