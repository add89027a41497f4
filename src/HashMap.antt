-- ===== src/HashMap.antt =====
-- `std::collections::HashMap` as the list of its entries. The list stands for the content and the
-- history; the order in which a program meets the entries is another matter, see `Visit`.
pub mod Laws
pub mod Members
use kitty_proxy.Common.{
  List, [], ◌∷◌, map, Bool, true, false, ◌≡◌, refl, ◌↔◌, Option, none, some, Perm, if◌then◌else◌,
}

-- Equality of keys, as `#[derive(PartialEq, Eq)]` gives it.
pub record Eq (K : Type 0) : Type 0 where
  pub beq : K → K → Bool
  pub beq_iff : (a b : K) → (beq a b ≡ true) ↔ (a ≡ b)

abbrev pub beq_of : {K : Type 0} → Discrete K → K → K → Bool
beq_of d a b = elim (d a b) [ yes _ ↦ true | no _ ↦ false ]

pub beq_of_iff : {K : Type 0} (d : Discrete K) (a b : K) → (beq_of d a b ≡ true) ↔ (a ≡ b)
beq_of_iff d a b =
    elim (d a b) as (λ r. (elim r [ yes _ ↦ true | no _ ↦ false ] ≡ true) ↔ (a ≡ b)) [
      | yes e ↦ (λ _. e, λ _. refl)
      | no n ↦ (λ h. cc, λ e. absurd (n e))
    ]

abbrev pub eq_of : {K : Type 0} → Discrete K → Eq K
eq_of d = record { beq = beq_of d; beq_iff = beq_of_iff d }

abbrev pub HashMap : Type 0 → Type 0 → Type 0
HashMap K V = List (K × V)

-- The order in which `iter` yields the entries is the hasher's: each entry once, in some order.
pub record Visit (A : Type 0) : Type 0 where
  pub iter : List A → List A
  pub iter_perm : (m : List A) → Perm (iter m) m

abbrev pub keys : {K V : Type 0} → HashMap K V → List K
keys = map λ e. e.0

module _ {K V : Type 0} ⦃q : Eq K⦄ where
  unfoldable pub get : HashMap K V → K → Option V
  get [] k = none
  get ((j, v) ∷ m) k = if q.beq j k then some v else get m k

  -- An entry that is there keeps its place.
  unfoldable pub insert : HashMap K V → K → V → HashMap K V
  insert [] k v = (k, v) ∷ []
  insert ((j, w) ∷ m) k v = if q.beq j k then (j, v) ∷ m else (j, w) ∷ insert m k v

  unfoldable pub remove : HashMap K V → K → HashMap K V
  remove [] k = []
  remove ((j, w) ∷ m) k = if q.beq j k then remove m k else (j, w) ∷ remove m k

  -- `Iterator::collect` into a map, from the entries that are in it already.
  unfoldable pub collect : HashMap K V → List (K × V) → HashMap K V
  collect m [] = m
  collect m ((k, v) ∷ l) = collect (insert m k v) l
