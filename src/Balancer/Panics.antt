-- ===== src/Balancer/Panics.antt =====
-- Where `get_least_connected_node` panics: `partial_cmp(..).unwrap()` on a number that is none, and
-- `min_by(..).unwrap()` on no node.
use mathlib.Core.Bool.{Bool-set}
use mathlib.Core.HLevel.{⊥_prop}
use mathlib.Core.Logic.Or
use mathlib.Core.List.{Nodup, mem-cons, not-mem-nil}
use mathlib.Core.List.Perm
use kitty_proxy.Common.{
  ℕ, List, [], ◌∷◌, ◌≡◌, ◌≢◌, refl, sym, ◌∙◌, ap, Bool, true, false, ◌||◌, some, arith, Mem,
}
use kitty_proxy.Common.Outcome.{panic}
use kitty_proxy.HashMap.{keys}
use kitty_proxy.HashMap.Members.{mem_of_get}
use kitty_proxy.Types.{NodeInfo, node_eq, pos}
use kitty_proxy.Balancer.Float.{F32}
use kitty_proxy.Balancer.{
  ConnectionStatsBanlancer, Machine, ratio, min_from, min_by, get_least_connected_node,
}
use kitty_proxy.Balancer.Counts.{count}
use kitty_proxy.Balancer.Least.{compared, with_ratio, get_least-min_by, in_compared}

module _ (f : F32) where
  has_nan : List (NodeInfo × f.Val) → Bool
  has_nan [] = false
  has_nan (x ∷ xs) = f.is_nan x.1 || has_nan xs

  has_nan-mem :
      (es : List (NodeInfo × f.Val)) (e : NodeInfo × f.Val)
      → Mem e es
      → f.is_nan e.1 ≡ true
      → has_nan es ≡ true
  unfolding has_nan
  has_nan-mem [] e t h = absurd (not-mem-nil t)
  has_nan-mem (x ∷ xs) e t h =
      Or.elim (Bool-set _ _) (mem-cons.0 t) (λ same. rw (← same, h))
        λ u. or_true (has_nan-mem xs e u h)
    where
      or_true : has_nan xs ≡ true → (f.is_nan x.1 || has_nan xs) ≡ true
      or_true e = ground arith

  -- A comparison with a number that is none panics.
  nan-min_from :
      {E : Type 0} (best x : NodeInfo × f.Val) (xs : List (NodeInfo × f.Val))
      → has_nan (best ∷ x ∷ xs) ≡ true
      → min_from {E = E} f best (x ∷ xs) ≡ panic
  unfolding has_nan min_from
  nan-min_from best x [] h = ground (arith, f.cmp_nan_left best.1 x.1, f.cmp_nan_right best.1 x.1)
  nan-min_from {E} best x (y ∷ ys) h = ground (
    arith,
    f.cmp_nan_left best.1 x.1,
    f.cmp_nan_right best.1 x.1,
    nan-min_from {E = E} best y ys,
    nan-min_from {E = E} x y ys,
  )

  two_entries :
      {E : Type 0} (es : List (NodeInfo × f.Val)) (d e : NodeInfo × f.Val)
      → Mem d es
      → Mem e es
      → d.0 ≢ e.0
      → has_nan es ≡ true
      → min_by {E = E} f es ≡ panic
  unfolding min_by
  two_entries [] d e t u n h = absurd (not-mem-nil t)
  two_entries (x ∷ []) d e t u n h = absurd (
      Or.elim ⊥_prop (mem-cons.0 t)
        (λ p.
          Or.elim ⊥_prop (mem-cons.0 u) (λ q. n (ap (λ (a : NodeInfo × f.Val). a.0) (p ∙ sym q)))
            not-mem-nil)
        not-mem-nil)
  two_entries (x ∷ y ∷ xs) d e t u n h = nan-min_from x y xs h

module _ {E : Type 0} (m : Machine) (b : ConnectionStatsBanlancer) where
  -- A node of weight 0 that has no connection makes the choice panic as soon as there is another
  -- node: 0 / 0 is not a number, and a comparison with it is unwrapped.
  pub idle_zero_weight_panics :
      (n k : NodeInfo) (c : ℕ)
      → Nodup (keys b.statistics_map)
      → n.node_number ≡ pos 0
      → count b n ≡ some 0
      → count b k ≡ some c
      → n ≢ k
      → get_least_connected_node {E = E} m b ≡ panic
  idle_zero_weight_panics n k c d zero_weight hn hk ne =
      get_least-min_by m b d
      ∙ two_entries m.float (compared m b) _ _ here
          (in_compared m b k c (mem_of_get b.statistics_map k c hk)) ne
          (has_nan-mem m.float (compared m b) _ here nan)
    where
      here : Mem (with_ratio m.float (n, 0)) (compared m b)
      here = in_compared m b n 0 (mem_of_get b.statistics_map n 0 hn)

      nan : m.float.is_nan (ratio m.float (n, 0)) ≡ true
      nan = rw zero_weight m.float.div_zero_zero

  -- So does a balancer without nodes.
  no_node_panics : b.statistics_map ≡ [] → get_least_connected_node {E = E} m b ≡ panic
  unfolding get_least_connected_node min_by
  no_node_panics e = rw (none_counted, Perm.eq-nil (m.ratios.iter_perm [])) refl
    where
      none_counted : m.counts.iter b.statistics_map ≡ []
      none_counted = rw e (Perm.eq-nil (m.counts.iter_perm []))
