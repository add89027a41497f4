-- ===== src/Traffic/Contained.antt =====
-- `match_preffix` and `match_suffix`: the rule of a key that the input contains, whatever the order
-- in which the map is iterated.
use mathlib.Core.List.{mem-cons, mem-cons_self, mem-cons_of_mem, not-mem-nil}
use mathlib.Core.List.Perm
use mathlib.Core.Logic.Or
use mathlib.Core.HLevel.{⊥_prop}
use kitty_proxy.Common.{
  List, [], ◌∷◌, ◌≡◌, sym, ◌∙◌, ap, Bool, true, false, none, some, Mem, arith, Bool-cases,
  Option-cases, inl, inr,
}
use kitty_proxy.Text.{Text, contains}
use kitty_proxy.Text.Contains.{IsInfix, contains_iff}
use kitty_proxy.HashMap.{HashMap}
use kitty_proxy.Traffic.Crates.{Order}
use kitty_proxy.Traffic.Rule.{TrafficStreamRule}
use kitty_proxy.Traffic.{match_contained}

-- The map has a rule `v` whose key stands in the input.
abbrev pub HasRule : HashMap Text TrafficStreamRule → Text → TrafficStreamRule → Type 0
HasRule m input v = (k : Text) × Mem (k, v) m × IsInfix k input

-- No key of the map stands in the input.
abbrev pub NoRule : HashMap Text TrafficStreamRule → Text → Type 0
NoRule m input = (k : Text) (v : TrafficStreamRule) → Mem (k, v) m → ¬ IsInfix k input

found :
    (es : List (Text × TrafficStreamRule)) (input : Text) (v : TrafficStreamRule)
    → match_contained es input ≡ some v
    → HasRule es input v
unfolding match_contained
found [] input v h = cc
found ((k, w) ∷ es) input v h = elim (Bool-cases (contains input k)) [
  | inl here ↦
      let same : w ≡ v = ground (arith, here, h) in
      (k, rw same mem-cons_self, (contains_iff input k).0 here)
  | inr not_here ↦
      let (j, t, i) = found es input v (ground (arith, not_here, h)) in
      (j, mem-cons_of_mem (k, w) t, i)
]

not_found :
    (es : List (Text × TrafficStreamRule)) (input : Text)
    → match_contained es input ≡ none
    → NoRule es input
unfolding match_contained
not_found [] input h k v t i = not-mem-nil t
not_found ((j, w) ∷ es) input h k v t i = elim (Bool-cases (contains input j)) [
  | inl here ↦ clash (ground (arith, here, h))
  | inr not_here ↦
      Or.elim ⊥_prop (mem-cons.0 t)
        (λ e.
          differ not_here ((contains_iff input k).1 i)
            (ap (λ (p : Text × TrafficStreamRule). p.0) e))
        (λ later. not_found es input (ground (arith, not_here, h)) k v later i)
]
  where
    clash : ◌≡◌ {A = Bool} true false → ⊥
    clash e = cc

    differ : contains input j ≡ false → contains input k ≡ true → k ≡ j → ⊥
    differ a b e = clash (sym b ∙ ap (contains input) e ∙ a)

module _ (order : Order TrafficStreamRule) (m : HashMap Text TrafficStreamRule) (input : Text) where
  pub contained_found :
      (v : TrafficStreamRule) → match_contained (order.iter m) input ≡ some v → HasRule m input v
  contained_found v h =
      let (k, t, i) = found (order.iter m) input v h in (k, Perm.subset (order.iter_perm m) _ t, i)

  pub contained_none : match_contained (order.iter m) input ≡ none → NoRule m input
  contained_none h k v t =
      not_found (order.iter m) input h k v (Perm.subset (Perm.symm (order.iter_perm m)) _ t)

-- Two rules of a map that both speak of the input agree.
abbrev pub Agree : HashMap Text TrafficStreamRule → Text → Type 0
Agree m input = (v w : TrafficStreamRule) → HasRule m input v → HasRule m input w → v ≡ w

module _ (order : Order TrafficStreamRule) (m : HashMap Text TrafficStreamRule) (input : Text) where
  pub contained_of_NoRule : NoRule m input → match_contained (order.iter m) input ≡ none
  contained_of_NoRule n = elim (Option-cases (match_contained (order.iter m) input)) [
    | inl e ↦ e
    | inr (v, e) ↦ let (k, t, i) = contained_found order m input v e in absurd (n k v t i)
  ]

  pub contained_of_Agree :
      (v : TrafficStreamRule)
      → Agree m input
      → HasRule m input v
      → match_contained (order.iter m) input ≡ some v
  contained_of_Agree v a (k, t, i) = elim (Option-cases (match_contained (order.iter m) input)) [
    | inl e ↦ absurd (contained_none order m input e k v t i)
    | inr (w, e) ↦ e ∙ ap some (a w v (contained_found order m input w e) (k, t, i))
  ]
