-- ===== src/Common/Outcome.antt =====
-- What a Rust function can do: return a value, return an error, or panic; and the same for code
-- that mutates a state of type `S`. What was written before an error or a panic stays written.
use mathlib.Core.Path.{◌≡◌, refl, subst}
use mathlib.Core.Option.{Option, none, some}

pub data Outcome (E A : Type 0) : Type 0 where
  ok : A → Outcome E A
  err : E → Outcome E A
  panic : Outcome E A

-- `Option::unwrap` and `expect`.
abbrev pub unwrap : {E A : Type 0} → Option A → Outcome E A
unwrap none = panic
unwrap (some a) = ok a

abbrev pub Exec : Type 0 → Type 0 → Type 0 → Type 0
Exec S E A = S → Outcome E A × S

abbrev pub pure : {S E A : Type 0} → A → S → Outcome E A × S
pure a s = (ok a, s)

abbrev pub raise : {S E A : Type 0} → E → S → Outcome E A × S
raise e s = (err e, s)

abbrev pub lift : {S E A : Type 0} → Outcome E A → S → Outcome E A × S
lift r s = (r, s)

abbrev pub gets : {S E A : Type 0} → (S → A) → S → Outcome E A × S
gets f s = (ok (f s), s)

abbrev pub continue :
    {S E A B : Type 0} → Outcome E A → (A → S → Outcome E B × S) → S → Outcome E B × S
continue (ok a) f s = f a s
continue (err e) f s = (err e, s)
continue panic f s = (panic, s)

infixl 5 ◌>>=◌ ◌>>◌
abbrev pub ◌>>=◌ :
    {S E A B : Type 0} → (S → Outcome E A × S) → (A → S → Outcome E B × S) → S → Outcome E B × S
◌>>=◌ m f s = let (r, s') = m s in continue r f s'

abbrev pub ◌>>◌ :
    {S E A B : Type 0} → (S → Outcome E A × S) → (S → Outcome E B × S) → S → Outcome E B × S
◌>>◌ m n s = let (r, s') = m s in continue r (λ _. n) s'

-- `?` in code that has no state.
abbrev pub and_then : {E A B : Type 0} → Outcome E A → (A → Outcome E B) → Outcome E B
and_then (ok a) f = f a
and_then (err e) f = err e
and_then panic f = panic

pub and_then-eq-ok :
    {E A B : Type 0} (m : Outcome E A) (f : A → Outcome E B) {b : B}
    → and_then m f ≡ ok b
    → (a : A) × (m ≡ ok a) × (f a ≡ ok b)
and_then-eq-ok (ok a) f h = (a, refl, h)
and_then-eq-ok (err e) f h = cc
and_then-eq-ok panic f h = cc

Held : {S E A : Type 0} → (A → S → Type 0) → Outcome E A → S → Type 0
Held P (ok a) s = P a s
Held P (err e) s = Unit
Held P panic s = Unit

-- What holds of a value and the state that it is returned in; an error and a panic promise nothing.
pub record Ensures {S E A : Type 0} (P : A → S → Type 0) (p : Outcome E A × S) : Type 0 where
  held : Held P p.0 p.1

module _ {S E A : Type 0} {P : A → S → Type 0} where
  pub Ensures-ok : (a : A) (s : S) → P a s → Ensures {E = E} P (ok a, s)
  unfolding Held
  Ensures-ok a s h = record { held = h }

  pub Ensures-err : (e : E) (s : S) → Ensures P (err e, s)
  unfolding Held
  Ensures-err e s = record { held = tt }

  pub Ensures-panic : (s : S) → Ensures {E = E} P (panic, s)
  unfolding Held
  Ensures-panic s = record { held = tt }

  pub ensured : {p : Outcome E A × S} {a : A} {t : S} → Ensures P p → p ≡ (ok a, t) → P a t
  unfolding Held
  ensured h e = subst (λ p. Held P p.0 p.1) e h.held

pub Ensures-mono :
    {S E A : Type 0} {P Q : A → S → Type 0} {p : Outcome E A × S}
    → Ensures Q p
    → ((a : A) (t : S) → Q a t → P a t)
    → Ensures P p
Ensures-mono {S} {E} {A} {P} {Q} {p} h k = go p.0 p.1 h.held
  where
    go : (r : Outcome E A) (t : S) → Held Q r t → Ensures P (r, t)
    go (ok a) t h = unfold Held in Ensures-ok a t (k a t h)
    go (err e) t h = Ensures-err e t
    go panic t h = Ensures-panic t

pub bind-Ensures :
    {S E A B : Type 0} {P : B → S → Type 0} {Q : A → S → Type 0} (m : S → Outcome E A × S)
    (f : A → S → Outcome E B × S) (s : S)
    → Ensures Q (m s)
    → ((a : A) (t : S) → Q a t → Ensures P (f a t))
    → Ensures P ((m >>= f) s)
bind-Ensures {S} {E} {A} {B} {P} {Q} m f s h k = go (m s).0 (m s).1 h.held
  where
    go : (r : Outcome E A) (t : S) → Held Q r t → Ensures P (continue r f t)
    go (ok a) t h = unfold Held in k a t h
    go (err e) t h = Ensures-err e t
    go panic t h = Ensures-panic t

pub lift-Ensures :
    {S E A : Type 0} (r : Outcome E A) (s : S) → Ensures (λ a t. (r ≡ ok a) × (s ≡ t)) (r, s)
lift-Ensures (ok a) s = Ensures-ok a s (refl, refl)
lift-Ensures (err e) s = Ensures-err e s
lift-Ensures panic s = Ensures-panic s
