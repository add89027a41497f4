-- ===== src/HashMap/Laws.antt =====
-- Lookup after insertion and removal, and which entries an iteration meets.
use kitty_proxy.Common.{◌++◌, [], ◌∷◌, true, ◌≡◌, refl, none, some, arith, if◌then◌else◌}
use kitty_proxy.HashMap.{keys, Eq, HashMap, get, insert, remove}

pub beq_refl : {K : Type 0} ⦃q : Eq K⦄ (k : K) → q.beq k k ≡ true
beq_refl ⦃q⦄ k = (q.beq_iff k k).1 refl

module _ {K V : Type 0} ⦃q : Eq K⦄ where
  pub get-insert :
      (m : HashMap K V) (k j : K) (v : V)
      → get (insert m k v) j ≡ (if q.beq k j then some v else get m j)
  unfolding get insert
  get-insert [] k j v = refl
  get-insert ((i, w) ∷ m) k j v =
      ground (arith, q.beq_iff k j, q.beq_iff i k, q.beq_iff i j, get-insert m k j v)

  pub get-remove :
      (m : HashMap K V) (k j : K) → get (remove m k) j ≡ (if q.beq k j then none else get m j)
  unfolding get remove
  get-remove [] k j = ground arith
  get-remove ((i, w) ∷ m) k j =
      ground (arith, q.beq_iff k j, q.beq_iff i k, q.beq_iff i j, get-remove m k j)

  pub get-insert_self : (m : HashMap K V) (k : K) (v : V) → get (insert m k v) k ≡ some v
  get-insert_self m k v = simp (get-insert, beq_refl)

  -- A removal undoes an insertion under a fresh key.
  pub remove_fresh : (m : HashMap K V) (k : K) → get m k ≡ none → remove m k ≡ m
  unfolding get remove
  remove_fresh [] k h = refl
  remove_fresh ((i, w) ∷ m) k h = ground (arith, remove_fresh m k)

  pub remove-insert :
      (m : HashMap K V) (k : K) (v : V) → get m k ≡ none → remove (insert m k v) k ≡ m
  unfolding get insert remove
  remove-insert [] k v h = rw (beq_refl k)
  remove-insert ((i, w) ∷ m) k v h = ground (arith, remove-insert m k v)

  pub insert-insert : (m : HashMap K V) (k : K) (v w : V) → insert (insert m k v) k w ≡ insert m k w
  unfolding insert
  insert-insert [] k v w = rw (beq_refl k)
  insert-insert ((i, u) ∷ m) k v w = ground (arith, insert-insert m k v w)

  pub insert_same : (m : HashMap K V) (k : K) (v : V) → get m k ≡ some v → insert m k v ≡ m
  unfolding get insert
  insert_same [] k v h = cc
  insert_same ((i, u) ∷ m) k v h = ground (arith, insert_same m k v)

  pub keys-insert :
      (m : HashMap K V) (k : K) (v w : V) → get m k ≡ some v → keys (insert m k w) ≡ keys m
  unfolding get insert
  keys-insert [] k v w h = cc
  keys-insert ((i, u) ∷ m) k v w h = ground (arith, keys-insert m k v w)

  -- A fresh key goes to the end.
  pub insert_fresh :
      (m : HashMap K V) (k : K) (v : V) → get m k ≡ none → insert m k v ≡ m ++ (k, v) ∷ []
  unfolding get insert
  insert_fresh [] k v h = refl
  insert_fresh ((i, u) ∷ m) k v h = ground (arith, insert_fresh m k v)
