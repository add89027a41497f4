-- ===== src/Balancer/Float.antt =====
-- `f32` as the balancer uses it: conversions, division and `partial_cmp`, with what IEEE 754 says
-- of them. The type of the floats is a parameter; `fixed` below is one that meets the laws.
use Prim.Native.Nat.{Ordering, compare}
use native.Mathlib.Nat.{mul-le-mul_right}
use kitty_proxy.Common.{
  ℕ, zero, suc, ◌+◌, ◌*◌, ◌/◌, ◌^◌, ◌<◌, ◌≤◌, ◌≡◌, refl, Bool, true, false, Option, none, some,
  arith, ◌≢◌,
}
use kitty_proxy.Types.{ℤ, pos, negsuc}

abbrev pub swap_ordering : Ordering → Ordering
swap_ordering Ordering.lt = Ordering.gt
swap_ordering Ordering.eq = Ordering.eq
swap_ordering Ordering.gt = Ordering.lt

-- `a <= b`; false if one of them is not a number.
abbrev pub is_le : Option Ordering → Bool
is_le none = false
is_le (some Ordering.gt) = false
is_le (some Ordering.lt) = true
is_le (some Ordering.eq) = true

pub record F32 : Type 1 where
  pub Val : Type 0
  pub of_usize : ℕ → Val
  pub of_i8 : ℤ → Val
  pub div : Val → Val → Val
  pub partial_cmp : Val → Val → Option Ordering
  pub is_nan : Val → Bool
  -- A comparison fails exactly if one side is not a number.
  pub cmp_nan_left : (a b : Val) → is_nan a ≡ true → partial_cmp a b ≡ none
  pub cmp_nan_right : (a b : Val) → is_nan b ≡ true → partial_cmp a b ≡ none
  pub cmp_number : (a b : Val) → is_nan a ≡ false → is_nan b ≡ false → partial_cmp a b ≢ none
  pub cmp_refl : (a : Val) → is_nan a ≡ false → is_le (partial_cmp a a) ≡ true
  pub cmp_gt : (a b : Val) → partial_cmp a b ≡ some Ordering.gt → is_le (partial_cmp b a) ≡ true
  pub cmp_trans :
      (a b c : Val)
      → is_le (partial_cmp a b) ≡ true
      → is_le (partial_cmp b c) ≡ true
      → is_le (partial_cmp a c) ≡ true
  -- 0 / 0 is not a number; division by a positive weight is one.
  pub div_zero_zero : is_nan (div (of_usize 0) (of_i8 (pos 0))) ≡ true
  pub div_number : (c w : ℕ) → 0 < w → is_nan (div (of_usize c) (of_i8 (pos w))) ≡ false
  -- Below 2 ^ 22 the 24 bits of a quotient by the same weight tell two counts apart.
  pub div_strict :
      (c d w : ℕ)
      → c < d
      → d < 2 ^ 22
      → 0 < w
      → w < 128
      → partial_cmp (div (of_usize d) (of_i8 (pos w))) (div (of_usize c) (of_i8 (pos w)))
        ≡ some Ordering.gt
  -- Below 2 ^ 16 they tell apart any two quotients by weights of seven bits that differ.
  pub div_order :
      (c d w v : ℕ)
      → c < 2 ^ 16
      → d < 2 ^ 16
      → 0 < w
      → w < 128
      → 0 < v
      → v < 128
      → is_le (partial_cmp (div (of_usize c) (of_i8 (pos w))) (div (of_usize d) (of_i8 (pos v))))
        ≡ true
      → c * v ≤ d * w

-- Fixed-point numbers with 14 fractional bits, to show that the laws can hold: `none` is NaN.
abbrev pub Fixed : Type 0
Fixed = Option ℕ

abbrev pub weight_of : ℤ → Fixed
weight_of (pos w) = some w
weight_of (negsuc _) = none

abbrev pub quotient : Fixed → Fixed → Fixed
quotient (some a) (some (suc w)) = some (a * 16384 / suc w)
quotient (some a) (some zero) = none
quotient (some a) none = none
quotient none _ = none

abbrev pub fixed_cmp : Fixed → Fixed → Option Ordering
fixed_cmp (some a) (some b) = some (compare a b)
fixed_cmp (some a) none = none
fixed_cmp none _ = none

abbrev pub fixed_nan : Fixed → Bool
fixed_nan none = true
fixed_nan (some _) = false

pub cmp_nan_left_fixed : (a b : Fixed) → fixed_nan a ≡ true → fixed_cmp a b ≡ none
cmp_nan_left_fixed none b h = refl
cmp_nan_left_fixed (some a) b h = cc

pub cmp_nan_right_fixed : (a b : Fixed) → fixed_nan b ≡ true → fixed_cmp a b ≡ none
cmp_nan_right_fixed none b h = refl
cmp_nan_right_fixed (some a) none h = refl
cmp_nan_right_fixed (some a) (some b) h = cc

pub cmp_number_fixed :
    (a b : Fixed) → fixed_nan a ≡ false → fixed_nan b ≡ false → fixed_cmp a b ≢ none
cmp_number_fixed a b h k = ground arith

pub cmp_refl_fixed : (a : Fixed) → fixed_nan a ≡ false → is_le (fixed_cmp a a) ≡ true
cmp_refl_fixed a h = ground arith

pub cmp_gt_fixed : (a b : Fixed) → fixed_cmp a b ≡ some Ordering.gt → is_le (fixed_cmp b a) ≡ true
cmp_gt_fixed a b h = ground arith

pub div_number_fixed : (c w : ℕ) → 0 < w → fixed_nan (quotient (some c) (weight_of (pos w))) ≡ false
div_number_fixed c zero h = absurd (omega arith)
div_number_fixed c (suc w) h = refl

pub cmp_trans_fixed :
    (a b c : Fixed)
    → is_le (fixed_cmp a b) ≡ true
    → is_le (fixed_cmp b c) ≡ true
    → is_le (fixed_cmp a c) ≡ true
cmp_trans_fixed (some a) (some b) (some c) h k = ground arith
cmp_trans_fixed (some a) (some b) none h k = cc
cmp_trans_fixed (some a) none c h k = cc
cmp_trans_fixed none b c h k = cc

div_gap : (x y w : ℕ) → 0 < w → x + w ≤ y → x / w < y / w
div_gap x y w p h = grind (arith)

pub div_strict_fixed :
    (c d w : ℕ)
    → c < d
    → 0 < w
    → w < 128
    → fixed_cmp (quotient (some d) (some w)) (quotient (some c) (some w)) ≡ some Ordering.gt
div_strict_fixed c d zero h p q = absurd (omega arith)
div_strict_fixed c d (suc w) h p q =
    ground (arith, div_gap (c * 16384) (d * 16384) (suc w) p (omega arith))

order_of_quotients :
    (c d w v a b : ℕ)
    → c * 16384 + 1 ≤ (a + 1) * w
    → b * v ≤ d * 16384
    → a ≤ b
    → w * v < 16384
    → 0 < v
    → c * v ≤ d * w
order_of_quotients c d w v a b p q h small r =
    omega (arith, mul-le-mul_right v p, mul-le-mul_right w q, mul-le-mul_right (w * v) h)

div_order_ℕ :
    (c d w v : ℕ)
    → 0 < w
    → w < 128
    → 0 < v
    → v < 128
    → c * 16384 / w ≤ d * 16384 / v
    → c * v ≤ d * w
div_order_ℕ c d w v p q r s h =
    order_of_quotients c d w v (c * 16384 / w) (d * 16384 / v) above below h small r
  where
    above : c * 16384 + 1 ≤ (c * 16384 / w + 1) * w
    above = grind arith

    below : d * 16384 / v * v ≤ d * 16384
    below = grind arith

    small : w * v < 16384
    small = let one : w ≤ 127 = omega arith in omega (arith, mul-le-mul_right v one)

pub div_order_fixed :
    (c d w v : ℕ)
    → 0 < w
    → w < 128
    → 0 < v
    → v < 128
    → is_le (fixed_cmp (quotient (some c) (some w)) (quotient (some d) (some v))) ≡ true
    → c * v ≤ d * w
div_order_fixed c d zero v p q r s h = absurd (omega arith)
div_order_fixed c d (suc w) zero p q r s h = absurd (omega arith)
div_order_fixed c d (suc w) (suc v) p q r s h =
    div_order_ℕ c d (suc w) (suc v) p q r s (ground arith)

-- The fixed-point numbers as an instance of the interface.
abbrev pub fixed : F32
fixed = record {
  Val = Fixed;
  of_usize = λ c. some c;
  of_i8 = weight_of;
  div = quotient;
  partial_cmp = fixed_cmp;
  is_nan = fixed_nan;
  cmp_nan_left = cmp_nan_left_fixed;
  cmp_nan_right = cmp_nan_right_fixed;
  cmp_number = cmp_number_fixed;
  cmp_refl = cmp_refl_fixed;
  cmp_gt = cmp_gt_fixed;
  cmp_trans = cmp_trans_fixed;
  div_zero_zero = refl;
  div_number = div_number_fixed;
  div_strict = λ c d w h _ p q. div_strict_fixed c d w h p q;
  div_order = λ c d w v _ _ p q r s h. div_order_fixed c d w v p q r s h;
}
