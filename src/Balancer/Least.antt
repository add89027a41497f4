-- ===== src/Balancer/Least.antt =====
-- `get_least_connected_node` returns a node whose ratio of connections to weight no other node is
-- below, in whatever order the maps are iterated; and where it panics.
use Prim.Native.Nat.{Ordering}
use mathlib.Core.Logic.{∥∥₁_map}
use mathlib.Core.List.{
  Nodup, mem-map, map-eq-nil_iff, mem-map_of_mem, mem-cons_self, mem-cons_of_mem,
}
use mathlib.Core.List.Perm
use mathlib.Core.Bool.{Bool-set}
use kitty_proxy.Common.{
  ℕ, ◌<◌, List, [], ◌∷◌, map, ◌≡◌, ◌≢◌, refl, sym, ap, true, false, Option, none, some, Mem, All,
}
use kitty_proxy.Common.Outcome.{Outcome, ok}
use kitty_proxy.HashMap.{keys}
use kitty_proxy.HashMap.Members.{All-perm, All-map, collect-append}
use kitty_proxy.Types.{NodeInfo, node_eq, pos}
use kitty_proxy.Balancer.Float.{F32, is_le}
use kitty_proxy.Balancer.{
  ConnectionStatsBanlancer, Machine, ratio, min_from, min_by, get_least_connected_node,
}

module _ (f : F32) where
  -- No entry's number is below `r`.
  abbrev pub Lowest : f.Val → NodeInfo × f.Val → Type 0
  Lowest r e = is_le (f.partial_cmp r e.1) ≡ true

  abbrev IsNumber : NodeInfo × f.Val → Type 0
  IsNumber e = f.is_nan e.1 ≡ false

module _ {E : Type 0} (f : F32) where
  pub record Chosen (es : List (NodeInfo × f.Val)) (out : Outcome E NodeInfo) : Type 0 where
    pub node : NodeInfo
    pub value : f.Val
    pub returned : out ≡ ok node
    pub present : Mem (node, value) es
    pub lowest : All (Lowest f value) es

  min_from-Chosen :
      (best : NodeInfo × f.Val) (xs : List (NodeInfo × f.Val))
      → IsNumber f best
      → All (IsNumber f) xs
      → Chosen (best ∷ xs) (min_from f best xs)
  unfolding min_from
  min_from-Chosen best [] h hs = record {
    node = best.0;
    value = best.1;
    returned = refl;
    present = mem-cons_self;
    lowest = (f.cmp_refl best.1 h, tt);
  }
  min_from-Chosen best (x ∷ xs) h hs =
      go (f.partial_cmp best.1 x.1) refl (min_from-Chosen x xs hs.0 hs.1)
        (min_from-Chosen best xs h hs.1)
    where
      keep :
          is_le (f.partial_cmp best.1 x.1) ≡ true
          → Chosen (best ∷ xs) (min_from f best xs)
          → Chosen (best ∷ x ∷ xs) (min_from f best xs)
      keep le c = record {
        node = c.node;
        value = c.value;
        returned = c.returned;
        present = Perm.subset (Perm.swap best x xs) _ (mem-cons_of_mem x c.present);
        lowest = (c.lowest.0, (f.cmp_trans c.value best.1 x.1 c.lowest.0 le, c.lowest.1));
      }

      go :
          (o : Option Ordering)
          → f.partial_cmp best.1 x.1 ≡ o
          → Chosen (x ∷ xs) (min_from f x xs)
          → Chosen (best ∷ xs) (min_from f best xs)
          → Chosen (best ∷ x ∷ xs) (min_from f best (x ∷ xs))
      go none e _ _ = absurd (f.cmp_number best.1 x.1 h hs.0 e)
      go (some Ordering.gt) e c _ =
          rw (e, min_from)
            (record {
              node = c.node;
              value = c.value;
              returned = c.returned;
              present = mem-cons_of_mem best c.present;
              lowest =
                  (f.cmp_trans c.value x.1 best.1 c.lowest.0 (f.cmp_gt best.1 x.1 e), c.lowest);
            })
      go (some Ordering.lt) e _ c = rw (e, min_from) (keep (rw e) c)
      go (some Ordering.eq) e _ c = rw (e, min_from) (keep (rw e) c)

  min_by-Chosen :
      (es : List (NodeInfo × f.Val)) → es ≢ [] → All (IsNumber f) es → Chosen es (min_by f es)
  unfolding min_by
  min_by-Chosen [] n h = absurd (n refl)
  min_by-Chosen (x ∷ xs) n h = min_from-Chosen x xs h.0 h.1

-- The entries that the balancer compares, in the order of `ratios`.
abbrev pub with_ratio : (f : F32) → NodeInfo × ℕ → NodeInfo × f.Val
with_ratio f e = (e.0, ratio f e)

module _ (m : Machine) (b : ConnectionStatsBanlancer) where
  pub compared : List (NodeInfo × m.float.Val)
  compared = m.ratios.iter (map (with_ratio m.float) (m.counts.iter b.statistics_map))

  keys-with_ratio : (es : List (NodeInfo × ℕ)) → keys (map (with_ratio m.float) es) ≡ keys es
  keys-with_ratio [] = refl
  keys-with_ratio (e ∷ es) = rw (keys-with_ratio es)

  iter-Nodup : Nodup (keys b.statistics_map) → Nodup (keys (m.counts.iter b.statistics_map))
  iter-Nodup = Perm.nodup (Perm.map _ (Perm.symm (m.counts.iter_perm b.statistics_map)))

  pub get_least-min_by :
      {E : Type 0}
      → Nodup (keys b.statistics_map)
      → get_least_connected_node {E = E} m b ≡ min_by m.float compared
  unfolding get_least_connected_node compared
  get_least-min_by d =
      ap (λ l. min_by m.float (m.ratios.iter l))
        (collect-append [] _ (rw (keys-with_ratio (m.counts.iter b.statistics_map)) (iter-Nodup d)))

  pub in_compared :
      (k : NodeInfo) (d : ℕ)
      → Mem (k, d) b.statistics_map
      → Mem (with_ratio m.float (k, d)) compared
  unfolding compared
  in_compared k d t = Perm.subset (Perm.symm (m.ratios.iter_perm _)) _ (
      mem-map_of_mem (with_ratio m.float)
        (Perm.subset (Perm.symm (m.counts.iter_perm b.statistics_map)) _ t))

abbrev pub IsWeighted : NodeInfo × ℕ → Type 0
IsWeighted e = (w : ℕ) × (e.0.node_number ≡ pos w) × (0 < w) × (w < 128)

-- The nodes are distinct, there is one, and each has a positive weight that fits an `i8`.
pub record IsServing (b : ConnectionStatsBanlancer) : Type 0 where
  pub distinct : Nodup (keys b.statistics_map)
  pub some_node : b.statistics_map ≢ []
  pub weights : All IsWeighted b.statistics_map

module _ (m : Machine) (b : ConnectionStatsBanlancer) (v : IsServing b) where
  compared_numbers : All (IsNumber m.float) (compared m b)
  unfolding compared
  compared_numbers = All-perm _ number_prop (m.ratios.iter_perm _) (
      All-map _ _ (m.counts.iter b.statistics_map) (
        All-perm _ (λ e. Bool-set _ _) (m.counts.iter_perm b.statistics_map)
          (All-imp b.statistics_map v.weights)))
    where
      number_prop : (e : NodeInfo × m.float.Val) → IsProp (IsNumber m.float e)
      number_prop e = Bool-set _ _

      All-imp :
          (es : List (NodeInfo × ℕ))
          → All IsWeighted es
          → All (λ e. IsNumber m.float (with_ratio m.float e)) es
      All-imp [] h = tt
      All-imp (e ∷ es) ((w, is_w, p, _), h) = (rw is_w (m.float.div_number e.1 w p), All-imp es h)

  compared_some : compared m b ≢ []
  unfolding compared
  compared_some e =
      v.some_node (sym (Perm.nil-eq (rw iter_nil at (m.counts.iter_perm b.statistics_map))))
    where
      mapped : List (NodeInfo × m.float.Val)
      mapped = map (with_ratio m.float) (m.counts.iter b.statistics_map)

      iter_nil : m.counts.iter b.statistics_map ≡ []
      iter_nil = (map-eq-nil_iff _).0 (sym (Perm.nil-eq (rw e at (m.ratios.iter_perm mapped))))

  pub chosen : {E : Type 0} → Chosen {E = E} m.float (compared m b) (min_by m.float (compared m b))
  chosen = min_by-Chosen m.float (compared m b) compared_some compared_numbers

  pub from_compared :
      (n : NodeInfo) (r : m.float.Val)
      → Mem (n, r) (compared m b)
      → ∥ ((e : NodeInfo × ℕ) × Mem e b.statistics_map × (with_ratio m.float e ≡ (n, r))) ∥₁
  unfolding compared
  from_compared n r t =
      ∥∥₁_map (mem-map.0 (Perm.subset (m.ratios.iter_perm _) _ t))
        λ (e, u, same). (e, Perm.subset (m.counts.iter_perm b.statistics_map) _ u, same)
