-- ===== src/Common/Bits.antt =====
-- `x << k | y` on machine words: `bit_or` of a shifted word and a number that fits below it adds them.
use Prim.Native.Nat.{ℕ, zero, suc, ◌+◌, ◌*◌, ◌/◌, ◌≤◌, ◌<◌, max, bit_or, digits, bit_or-bitwise}
use mathlib.Core.Path.{◌≡◌, refl, ◌∙◌, subst}
use native.Mathlib.Omega.{arith}

-- `a << k`
shifted : ℕ → ℕ → ℕ
shifted zero a = a
shifted (suc k) a = shifted k a * 2

-- The numbers of `k` bits are those below it.
bound : ℕ → ℕ
bound zero = 1
bound (suc k) = bound k * 2

join_digits :
    (n k a b w : ℕ) → w ≡ shifted k a → w ≤ n → b < bound k → digits (λ d. d) max n w b ≡ w + b
unfolding shifted bound
join_digits zero k a b zero e h lt = omega arith
join_digits (suc n) k a b zero e h lt = omega arith
join_digits zero k a b (suc w) e h lt = absurd (omega arith)
join_digits (suc n) zero a b (suc w) e h lt =
    omega (arith, join_digits n 0 (suc w / 2) (b / 2) (suc w / 2) refl (omega arith) (omega arith))
join_digits (suc n) (suc k) a b (suc w) e h lt =
    omega (arith, join_digits n k a (b / 2) (suc w / 2) (omega arith) (omega arith) (omega arith))

-- A word shifted by `k`, joined with a number of `k` bits.
bit_or-shifted : (k a b : ℕ) → b < bound k → bit_or (shifted k a) b ≡ shifted k a + b
bit_or-shifted k a b h =
    bit_or-bitwise (shifted k a) b
    ∙ join_digits (shifted k a) k a b (shifted k a) refl (omega arith) h

pub bit_or_byte : (a b : ℕ) → b < 256 → bit_or (a * 256) b ≡ a * 256 + b
unfolding shifted bound
bit_or_byte a b h = subst (λ w. bit_or w b ≡ w + b) (omega arith) (bit_or-shifted 8 a b h)

pub bit_or_16 : (a b : ℕ) → b < 65536 → bit_or (a * 65536) b ≡ a * 65536 + b
unfolding shifted bound
bit_or_16 a b h = subst (λ w. bit_or w b ≡ w + b) (omega arith) (bit_or-shifted 16 a b h)

pub bit_or_24 : (a b : ℕ) → b < 16777216 → bit_or (a * 16777216) b ≡ a * 16777216 + b
unfolding shifted bound
bit_or_24 a b h = subst (λ w. bit_or w b ≡ w + b) (omega arith) (bit_or-shifted 24 a b h)
