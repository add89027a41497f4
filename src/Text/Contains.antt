-- ===== src/Text/Contains.antt =====
-- `starts_with`, `contains` and equality of texts decide what their names say.
use kitty_proxy.Common.{
  [], ◌∷◌, ◌++◌, Bool, true, ◌≡◌, refl, ap, ◌↔◌, inl, inr, ◌||◌, arith, ==_refl, Bool-cases,
}
use kitty_proxy.Text.{Text, text_eq, starts_with, contains}

pub text_eq_iff : (s t : Text) → (text_eq s t ≡ true) ↔ (s ≡ t)
unfolding text_eq
text_eq_iff [] [] = (λ h. refl, λ h. refl)
text_eq_iff [] (b ∷ t) = (λ h. cc, λ h. cc)
text_eq_iff (a ∷ s) [] = (λ h. cc, λ h. cc)
text_eq_iff (a ∷ s) (b ∷ t) =
    let ih = text_eq_iff s t in (λ h. ground (arith, ih), λ h. ground (arith, ih))

pub starts_with-append : (k s : Text) → starts_with (k ++ s) k ≡ true
unfolding starts_with
starts_with-append [] [] = refl
starts_with-append [] (a ∷ s) = refl
starts_with-append (a ∷ k) s = rw (==_refl a) (starts_with-append k s)

pub starts_with_inv : (s k : Text) → starts_with s k ≡ true → (t : Text) × (s ≡ k ++ t)
unfolding starts_with
starts_with_inv [] [] h = ([], refl)
starts_with_inv (a ∷ s) [] h = (a ∷ s, refl)
starts_with_inv [] (b ∷ k) h = cc
starts_with_inv (a ∷ s) (b ∷ k) h =
    let (t, e) = starts_with_inv s k (ground arith) in (t, ground (arith, e))

-- `k` stands somewhere in `s`.
abbrev pub IsInfix : Text → Text → Type 0
IsInfix k s = (u : Text) × (v : Text) × (s ≡ u ++ k ++ v)

or_true : (x y : Bool) → y ≡ true → (x || y) ≡ true
or_true x y h = ground arith

pub contains-append : (u k v : Text) → contains (u ++ k ++ v) k ≡ true
unfolding contains starts_with
contains-append [] [] [] = refl
contains-append [] [] (a ∷ v) = refl
contains-append [] (a ∷ k) v = rw (==_refl a) (rw (starts_with-append k v))
contains-append (a ∷ u) k v = or_true (starts_with (a ∷ u ++ k ++ v) k) _ (contains-append u k v)

pub contains_inv : (s k : Text) → contains s k ≡ true → IsInfix k s
unfolding contains
contains_inv [] k h = let (t, e) = starts_with_inv [] k h in ([], t, e)
contains_inv (a ∷ s) k h = elim (Bool-cases (starts_with (a ∷ s) k)) [
  | inl here ↦ let (t, e) = starts_with_inv (a ∷ s) k here in ([], t, e)
  | inr later ↦
      let (u, v, e) = contains_inv s k (ground (arith, later, h)) in (a ∷ u, v, ap (◌∷◌ a) e)
]

pub contains_iff : (s k : Text) → (contains s k ≡ true) ↔ IsInfix k s
contains_iff s k = (contains_inv s k, λ h. rw h.2 (contains-append h.0 k h.1))
