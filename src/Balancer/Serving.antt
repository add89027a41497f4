-- ===== src/Balancer/Serving.antt =====
-- Balancers of src/banlancer.rs that can choose a node, from `from_vec` on: the counts move, the nodes
-- stay.
use mathlib.Core.List.{
  Nodup, Nodup-nil, Nodup-cons, Nodup-append, mem-cons, not-mem-nil, map-append,
}
use mathlib.Core.Logic.Or
use mathlib.Core.HLevel.{⊥_prop}
use kitty_proxy.Common.{
  ℕ, ◌<◌, List, [], ◌∷◌, ◌≡◌, ◌≢◌, refl, sym, ◌∙◌, ap, subst, Bool, true, false, Option, none, some,
  arith, Mem, All, All-append, Option-cases, Bool-cases, inl, inr,
}
use kitty_proxy.Common.Outcome.{Outcome, ok, err, panic}
use kitty_proxy.HashMap.{HashMap, keys, get, insert}
use kitty_proxy.HashMap.Laws.{keys-insert, insert_fresh}
use kitty_proxy.Types.{NodeInfo, node_eq, pos}
use kitty_proxy.Balancer.{
  ConnectionStatsBanlancer, insert_all, from_vec, and_modify, add_one, sub_one, map_ok,
  incre_count_by_node_info, decre_count_by_node_info,
}
use kitty_proxy.Balancer.Sharing.{Pool, Run, Step, done, then_step, opened, closed}
use kitty_proxy.Balancer.Least.{IsServing, IsWeighted}

-- A positive weight that fits an `i8`.
abbrev pub HasWeight : NodeInfo → Type 0
HasWeight n = (w : ℕ) × (n.node_number ≡ pos w) × (0 < w) × (w < 128)

-- The entries are weighted if the keys are.
HasWeight-keys : (m : HashMap NodeInfo ℕ) → All IsWeighted m → All HasWeight (keys m)
HasWeight-keys [] h = tt
HasWeight-keys (e ∷ m) h = (h.0, HasWeight-keys m h.1)

keys-HasWeight : (m : HashMap NodeInfo ℕ) → All HasWeight (keys m) → All IsWeighted m
keys-HasWeight [] h = tt
keys-HasWeight (e ∷ m) h = (h.0, keys-HasWeight m h.1)

pub IsServing-keys :
    (b c : ConnectionStatsBanlancer)
    → keys c.statistics_map ≡ keys b.statistics_map
    → IsServing b
    → IsServing c
IsServing-keys b c e v = record {
  distinct = subst Nodup (sym e) v.distinct;
  some_node = λ none_left. v.some_node (empty b.statistics_map (sym e ∙ ap keys none_left));
  weights =
      keys-HasWeight c.statistics_map
        (subst (All HasWeight) (sym e) (HasWeight-keys b.statistics_map v.weights));
}
  where
    empty : (m : HashMap NodeInfo ℕ) → keys m ≡ [] → m ≡ []
    empty [] h = refl
    empty (x ∷ m) h = cc

map_ok-eq-ok :
    {E A B : Type 0} (g : A → B) (r : Outcome E A) {b : B}
    → map_ok g r ≡ ok b
    → (a : A) × (r ≡ ok a) × (g a ≡ b)
map_ok-eq-ok g (ok a) h = (a, refl, ground (arith, h))
map_ok-eq-ok g (err e) h = cc
map_ok-eq-ok g panic h = cc

module _ {E : Type 0} (f : ℕ → Outcome E ℕ) (k : NodeInfo) where
  keys-and_modify :
      (m after : HashMap NodeInfo ℕ) → and_modify f m k ≡ ok after → keys after ≡ keys m
  unfolding and_modify
  keys-and_modify [] after h = ground (arith, h)
  keys-and_modify ((j, v) ∷ m) after h = elim (Bool-cases (node_eq.beq j k)) [
    | inl e ↦
        let (w, _, same) = map_ok-eq-ok (λ w. (j, w) ∷ m) (f v) (rw (e, and_modify) at h) in
        ap keys (sym same)
    | inr e ↦
        let (rest, found, same) =
          map_ok-eq-ok (λ r. (j, v) ∷ r) (and_modify f m k) (rw (e, and_modify) at h) in
        ap keys (sym same) ∙ ap (◌∷◌ j) (keys-and_modify m rest found)
  ]

no_key : (m : HashMap NodeInfo ℕ) (k : NodeInfo) → get m k ≡ none → ¬ Mem k (keys m)
unfolding get
no_key [] k h t = not-mem-nil t
no_key ((j, v) ∷ m) k h t = elim (Bool-cases (node_eq.beq j k)) [
  | inl e ↦ clash (rw (e, get) at h)
  | inr e ↦
      Or.elim ⊥_prop (mem-cons.0 t) (λ same. differ e same)
        (λ later. no_key m k (rw (e, get) at h) later)
]
  where
    clash : ◌≡◌ {A = Option ℕ} (some v) none → ⊥
    clash e = cc

    differ : node_eq.beq j k ≡ false → k ≡ j → ⊥
    differ e same = no_false (sym e ∙ (node_eq.beq_iff j k).1 (sym same))
      where
        no_false : false ≡ true → ⊥
        no_false e = cc

keys-insert_any :
    (m : HashMap NodeInfo ℕ) (k : NodeInfo) (v : ℕ)
    → Nodup (keys m)
    → All HasWeight (keys m)
    → HasWeight k
    → Nodup (keys (insert m k v)) × All HasWeight (keys (insert m k v))
keys-insert_any m k v d h w = elim (Option-cases (get m k)) [
  | inl fresh ↦
      rw (insert_fresh m k v fresh, map-append _ m ((k, v) ∷ []))
        (
          (Nodup-append.1 (
            d,
            (Nodup-cons.1 (not-mem-nil, Nodup-nil)),
            λ a t u.
                Or.elim ⊥_prop (mem-cons.0 u)
                  (λ same. no_key m k fresh (subst (λ n. Mem n (keys m)) same t))
                  (λ no. not-mem-nil no),
          )),
          All-append HasWeight (keys m) (k ∷ []) h (w, tt),
        )
  | inr (u, e) ↦ rw (keys-insert m k u v e) (d, h)
]

insert_all-keys :
    (m : HashMap NodeInfo ℕ) (ns : List NodeInfo)
    → Nodup (keys m)
    → All HasWeight (keys m)
    → All HasWeight ns
    → Nodup (keys (insert_all m ns)) × All HasWeight (keys (insert_all m ns))
unfolding insert_all
insert_all-keys m [] d h hs = (d, h)
insert_all-keys m (n ∷ ns) d h hs =
    let (d', h') = keys-insert_any m n 0 d h hs.0 in insert_all-keys (insert m n 0) ns d' h' hs.1

insert_nonempty : (m : HashMap NodeInfo ℕ) (k : NodeInfo) (v : ℕ) → insert m k v ≢ []
unfolding insert
insert_nonempty [] k v h = cc
insert_nonempty ((j, w) ∷ m) k v h = ground (arith, h)

insert_all_nonempty : (m : HashMap NodeInfo ℕ) (ns : List NodeInfo) → m ≢ [] → insert_all m ns ≢ []
unfolding insert_all
insert_all_nonempty m [] h = h
insert_all_nonempty m (n ∷ ns) h = insert_all_nonempty (insert m n 0) ns (insert_nonempty m n 0)

-- The balancer of nodes that have positive weights, of which there is one.
pub from_vec-IsServing : (ns : List NodeInfo) → ns ≢ [] → All HasWeight ns → IsServing (from_vec ns)
unfolding from_vec insert_all
from_vec-IsServing [] some_node h = absurd (some_node refl)
from_vec-IsServing (n ∷ ns) some_node h =
    let (d, w) = insert_all-keys [] (n ∷ ns) Nodup-nil tt h in
    record {
      distinct = d;
      some_node = insert_all_nonempty (insert [] n 0) ns (insert_nonempty [] n 0);
      weights = keys-HasWeight _ w;
    }

module _ {E : Type 0} (checks : Bool) (b c : ConnectionStatsBanlancer) (n : NodeInfo) where
  pub incre-IsServing :
      incre_count_by_node_info {E = E} checks b n ≡ ok c → IsServing b → IsServing c
  unfolding incre_count_by_node_info
  incre-IsServing h =
      let (m, found, same) = map_ok-eq-ok _ _ h in
      IsServing-keys b c (
        ap (λ k. keys k.statistics_map) (sym same)
        ∙ keys-and_modify (add_one checks) n b.statistics_map m found)

  pub decre-IsServing :
      decre_count_by_node_info {E = E} checks b n ≡ ok c → IsServing b → IsServing c
  unfolding decre_count_by_node_info
  decre-IsServing h =
      let (m, found, same) = map_ok-eq-ok _ _ h in
      IsServing-keys b c (
        ap (λ k. keys k.statistics_map) (sym same)
        ∙ keys-and_modify (sub_one checks) n b.statistics_map m found)

-- A run keeps the nodes, so each balancer of it can choose one if the first can.
pub Run-IsServing :
    {E : Type 0} {checks : Bool} {s t : Pool}
    → Run E checks s t
    → IsServing s.balancer
    → IsServing t.balancer
Run-IsServing done v = v
Run-IsServing {E} {checks} (then_step {t} {u} run step) v = go step (Run-IsServing run v)
  where
    go : Step E checks t u → IsServing t.balancer → IsServing u.balancer
    go (opened before after n room o e o') = incre-IsServing checks t.balancer u.balancer n e
    go (closed before after n o e o') = decre-IsServing checks t.balancer u.balancer n e
