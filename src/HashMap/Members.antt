-- ===== src/HashMap/Members.antt =====
-- The entries of a map against its lookups, where no key occurs twice.
use mathlib.Core.List.{
  Nodup, Nodup-cons, Nodup-append, mem-cons, mem-cons_self, mem-cons_of_mem, mem-map_of_mem,
  not-mem-nil, map-append, append_assoc, append-nil,
}
use mathlib.Core.List.Perm
use mathlib.Core.Logic.Or
use mathlib.Core.Logic.{◌∨₁◌, ∨₁_prop}
use kitty_proxy.Common.{
  List, [], ◌∷◌, ◌++◌, map, true, false, ◌≡◌, refl, sym, ◌∙◌, ap, Option, none, some, Mem, Perm,
  arith, inl, inr, Bool-cases, All,
}
use kitty_proxy.HashMap.{insert, Eq, HashMap, keys, get, collect}
use kitty_proxy.HashMap.Laws.{insert_fresh}

-- What holds of all entries holds of each.
pub All-mem {ℓ κ} :
    {A : Type ℓ} (P : A → Type κ)
    → ((a : A) → IsProp (P a))
    → {a : A} (xs : List A) → All P xs
    → Mem a xs
    → P a
All-mem P pP [] h m = absurd (not-mem-nil m)
All-mem P pP {a} (x ∷ xs) h m =
    Or.elim (pP a) (mem-cons.0 m) (λ e. rw e h.0) (λ t. All-mem P pP xs h.1 t)

pub All-of_mem {ℓ κ} :
    {A : Type ℓ} (P : A → Type κ) (xs : List A) → ((a : A) → Mem a xs → P a) → All P xs
All-of_mem P [] h = tt
All-of_mem P (x ∷ xs) h = (h x mem-cons_self, All-of_mem P xs (λ a m. h a (mem-cons_of_mem x m)))

pub All-perm {ℓ κ} :
    {A : Type ℓ} (P : A → Type κ)
    → ((a : A) → IsProp (P a))
    → {xs ys : List A} → Perm xs ys
    → All P ys
    → All P xs
All-perm P pP {xs} {ys} p h = All-of_mem P xs λ a m. All-mem P pP ys h ((Perm.mem_iff p).0 m)

pub All-map {ℓ κ ι} :
    {A : Type ℓ} {B : Type κ} (P : B → Type ι) (g : A → B) (xs : List A)
    → All (λ a. P (g a)) xs
    → All P (map g xs)
All-map P g [] h = tt
All-map P g (x ∷ xs) h = (h.0, All-map P g xs h.1)

module _ {K V : Type 0} ⦃q : Eq K⦄ where
  pub get-none : (m : HashMap K V) (k : K) → ¬ Mem k (keys m) → get m k ≡ none
  unfolding get
  get-none [] k h = refl
  get-none ((i, w) ∷ m) k h = elim (Bool-cases (q.beq i k)) [
    | inl e ↦ absurd (h (rw ((q.beq_iff i k).0 e) mem-cons_self))
    | inr e ↦ rw e (get-none m k (λ t. h (mem-cons_of_mem i t)))
  ]

  pub mem_of_get : (m : HashMap K V) (k : K) (v : V) → get m k ≡ some v → Mem (k, v) m
  unfolding get
  mem_of_get [] k v h = cc
  mem_of_get ((i, w) ∷ m) k v h = elim (Bool-cases (q.beq i k)) [
    | inl e ↦ let same : (k, v) ≡ (i, w) = ground (arith, q.beq_iff i k) in mem-cons.1 (Or.inl same)
    | inr e ↦ mem-cons_of_mem (i, w) (mem_of_get m k v (ground arith))
  ]

  pub get_of_mem :
      IsSet V → (m : HashMap K V) (k : K) (v : V) → Nodup (keys m) → Mem (k, v) m → get m k ≡ some v
  unfolding get
  get_of_mem sV [] k v d t = absurd (not-mem-nil t)
  get_of_mem sV ((i, w) ∷ m) k v d t =
      Or.elim (set_of sV _ _) (mem-cons.0 t) (λ e. rw (hit e) (cong e))
        (λ later. rw (miss later) (get_of_mem sV m k v (Nodup-cons.0 d).1 later))
    where
      set_of : IsSet V → IsSet (Option V)
      set_of sV = hlevel sV

      hit : ◌≡◌ {A = K × V} (k, v) (i, w) → q.beq i k ≡ true
      hit e = (q.beq_iff i k).1 (ap (λ (p : K × V). p.0) (sym e))

      cong : ◌≡◌ {A = K × V} (k, v) (i, w) → some w ≡ some v
      cong e = ap (λ (p : K × V). some p.1) (sym e)

      miss : Mem (k, v) m → q.beq i k ≡ false
      miss later = elim (Bool-cases (q.beq i k)) [
        | inl e ↦ absurd (
            (Nodup-cons.0 d).0
              (rw ((q.beq_iff i k).0 e) (mem-map_of_mem (λ (p : K × V). p.0) later)))
        | inr e ↦ e
      ]

  fresh_key :
      (m : HashMap K V) (k : K) (v : V) (l : HashMap K V)
      → Nodup (keys (m ++ (k, v) ∷ l))
      → get m k ≡ none
  fresh_key m k v l d = get-none m k λ t. (Nodup-append.0 split).2 k t mem-cons_self
    where
      split : Nodup (keys m ++ keys ((k, v) ∷ l))
      split = rw (map-append _ m ((k, v) ∷ l)) at d

  pub collect-append : (m l : HashMap K V) → Nodup (keys (m ++ l)) → collect m l ≡ m ++ l
  unfolding collect
  collect-append m [] d = sym (append-nil m)
  collect-append m ((k, v) ∷ l) d = rw (insert_fresh m k v (fresh_key m k v l d)) (
      collect-append (m ++ (k, v) ∷ []) l (rw (append_assoc m ((k, v) ∷ []) l) d)
      ∙ append_assoc m ((k, v) ∷ []) l)

module _ {K V : Type 0} ⦃q : Eq K⦄ where
  -- An entry of a map after an insertion is the new one or an old one.
  pub mem-insert :
      (m : HashMap K V) (s : K) (r : V) (k : K) (w : V)
      → Mem (k, w) (insert m s r)
      → (w ≡ r) ∨₁ Mem (k, w) m
  unfolding insert
  mem-insert [] s r k w t =
      Or.elim ∨₁_prop (mem-cons.0 t) (λ e. Or.inl (ap (λ (p : K × V). p.1) e))
        (λ u. absurd (not-mem-nil u))
  mem-insert ((j, v) ∷ m) s r k w t = elim (Bool-cases (q.beq j s)) [
    | inl e ↦
        let t' : Mem (k, w) ((j, r) ∷ m) = rw e at t in
        Or.elim ∨₁_prop (mem-cons.0 t') (λ e. Or.inl (ap (λ (p : K × V). p.1) e))
          (λ u. Or.inr (mem-cons_of_mem (j, v) u))
    | inr e ↦
        let t' : Mem (k, w) ((j, v) ∷ insert m s r) = rw e at t in
        Or.elim ∨₁_prop (mem-cons.0 t') (λ e. Or.inr (mem-cons.1 (Or.inl e)))
          (λ u.
            Or.elim ∨₁_prop (mem-insert m s r k w u) (λ e. Or.inl e)
              (λ v'. Or.inr (mem-cons_of_mem (j, v) v')))
  ]
