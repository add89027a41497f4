-- ===== src/Balancer.antt =====
-- src/banlancer.rs: the balancer counts the open connections of each node and picks the node with
-- the least connections for its weight.
pub mod Float
pub mod Counts
pub mod Least
pub mod Choice
pub mod Fairness
pub mod Panics
pub mod Sharing
pub mod Serving
pub mod Tests
use Prim.Native.Nat.{Ordering}
use kitty_proxy.Common.{
  ℕ, zero, suc, ◌+◌, ◌-◌, ◌^◌, List, [], ◌∷◌, Bool, Option, none, some, ltb, map, if◌then◌else◌,
}
use kitty_proxy.Common.Outcome.{Outcome, ok, panic, err}
use kitty_proxy.HashMap.{HashMap, Eq, Visit, insert, collect}
use kitty_proxy.Types.{NodeInfo, node_eq, Address, address_of_node}
use Float.{F32}

pub record ConnectionStatsBanlancer : Type 0 where
  pub statistics_map : HashMap NodeInfo ℕ

-- The loop of `from_vec`.
insert_all : HashMap NodeInfo ℕ → List NodeInfo → HashMap NodeInfo ℕ
insert_all m [] = m
insert_all m (n ∷ ns) = insert_all (insert m n 0) ns

unfoldable pub from_vec : List NodeInfo → ConnectionStatsBanlancer
unfolding insert_all
from_vec node_infos = record { statistics_map = insert_all [] node_infos }

-- `usize` arithmetic: with overflow checks (the debug profile) it panics, otherwise it wraps.
unfoldable pub add_one : {E : Type 0} → Bool → ℕ → Outcome E ℕ
add_one checks v = if ltb (v + 1) (2 ^ 64) then ok (v + 1) else if checks then panic else ok 0

unfoldable pub sub_one : {E : Type 0} → Bool → ℕ → Outcome E ℕ
sub_one checks zero = if checks then panic else ok (2 ^ 64 - 1)
sub_one checks (suc v) = ok v

abbrev pub map_ok : {E A B : Type 0} → (A → B) → Outcome E A → Outcome E B
map_ok f (ok a) = ok (f a)
map_ok f (err e) = err e
map_ok f panic = panic

-- `entry(key).and_modify(f)`: a key that is not there stays away.
unfoldable pub and_modify :
    {E : Type 0}
    → (ℕ → Outcome E ℕ)
    → HashMap NodeInfo ℕ
    → NodeInfo
    → Outcome E (HashMap NodeInfo ℕ)
and_modify f [] k = ok []
and_modify f ((j, v) ∷ m) k =
    if node_eq.beq j k
    then map_ok (λ w. (j, w) ∷ m) (f v)
    else map_ok (λ r. (j, v) ∷ r) (and_modify f m k)

unfoldable pub incre_count_by_node_info :
    {E : Type 0} → Bool → ConnectionStatsBanlancer → NodeInfo → Outcome E ConnectionStatsBanlancer
unfolding and_modify add_one
incre_count_by_node_info checks b n =
    map_ok (λ m. record { statistics_map = m }) (and_modify (add_one checks) b.statistics_map n)

unfoldable pub decre_count_by_node_info :
    {E : Type 0} → Bool → ConnectionStatsBanlancer → NodeInfo → Outcome E ConnectionStatsBanlancer
unfolding and_modify sub_one
decre_count_by_node_info checks b n =
    map_ok (λ m. record { statistics_map = m }) (and_modify (sub_one checks) b.statistics_map n)

-- What a run of the proxy fixes: 32-bit floats, and the order in which the two maps of
-- `get_least_connected_node` are iterated.
pub record Machine : Type 1 where
  pub float : F32
  pub counts : Visit (NodeInfo × ℕ)
  pub ratios : Visit (NodeInfo × float.Val)

-- `*value as f32 / key.node_number as f32`
abbrev pub ratio : (f : F32) → NodeInfo × ℕ → f.Val
ratio f e = f.div (f.of_usize e.1) (f.of_i8 e.0.node_number)

-- `min_by` with `partial_cmp(..).unwrap()`, from the first entry on; of equal ones the first stays.
pub min_from :
    {E : Type 0} (f : F32) → NodeInfo × f.Val → List (NodeInfo × f.Val) → Outcome E NodeInfo
min_from f best [] = ok best.0
min_from f best (x ∷ xs) = elim (f.partial_cmp best.1 x.1) [
  | none ↦ panic
  | some o ↦ elim o [
    | Ordering.gt ↦ min_from f x xs
    | Ordering.lt ↦ min_from f best xs
    | Ordering.eq ↦ min_from f best xs
  ]
]

-- `min_by(..).map(..).unwrap()`
pub min_by : {E : Type 0} (f : F32) → List (NodeInfo × f.Val) → Outcome E NodeInfo
unfolding min_from
min_by f [] = panic
min_by f (x ∷ xs) = min_from f x xs

unfoldable pub get_least_connected_node :
    {E : Type 0} → Machine → ConnectionStatsBanlancer → Outcome E NodeInfo
unfolding min_by collect
get_least_connected_node m b =
    let entries = map (λ e. (e.0, ratio m.float e)) (m.counts.iter b.statistics_map) in
    let new_map = collect [] entries in min_by m.float (m.ratios.iter new_map)

-- `BanlancerTrait::get_best_node`
unfoldable pub get_best_node : {E : Type 0} → Machine → ConnectionStatsBanlancer → Outcome E Address
unfolding get_least_connected_node
get_best_node m b = map_ok address_of_node (get_least_connected_node m b)
