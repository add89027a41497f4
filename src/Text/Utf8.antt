-- ===== src/Text/Utf8.antt =====
-- `std::str::from_utf8`: the bytes are a text if they are well-formed UTF-8.
use kitty_proxy.Common.{
  ℕ, zero, suc, ◌<◌, List, [], ◌∷◌, Bool, true, false, ◌≡◌, refl, ◌&&◌, Option, none, some, arith,
  All, ltb, leb, ◌==◌, if◌then◌else◌,
}
use kitty_proxy.Text.{Text}

-- What the validation waits for: `more` bytes, the next of them from `low` to `high`.
pub record Pending : Type 0 where
  pub more : ℕ
  pub low : ℕ
  pub high : ℕ

abbrev tail_of : ℕ → Option Pending
tail_of n = some (record { more = n; low = 0x80; high = 0xbf })

abbrev narrow : ℕ → ℕ → ℕ → Option Pending
narrow n lo hi = some (record { more = n; low = lo; high = hi })

-- The first byte of a character.
lead : ℕ → Option Pending
lead b =
    if ltb b 0x80
    then tail_of 0
    else if leb 0xc2 b && leb b 0xdf
    then tail_of 1
    else if b == 0xe0
    then narrow 2 0xa0 0xbf
    else if b == 0xed
    then narrow 2 0x80 0x9f
    else if leb 0xe1 b && leb b 0xef
    then tail_of 2
    else if b == 0xf0
    then narrow 3 0x90 0xbf
    else if leb 0xf1 b && leb b 0xf3
    then tail_of 3
    else if b == 0xf4
    then narrow 3 0x80 0x8f
    else none

advance : Pending → ℕ → ℕ → Option Pending
advance p zero b = lead b
advance p (suc n) b = if leb p.low b && leb b p.high then tail_of n else none

scan : Pending → Text → Bool
scan p [] = p.more == 0
scan p (b ∷ s) = elim (advance p p.more b) [ none ↦ false | some q ↦ scan q s ]

abbrev begin : Pending
begin = record { more = 0; low = 0x80; high = 0xbf }

unfoldable pub is_utf8 : Text → Bool
unfolding scan advance lead
is_utf8 = scan begin

unfoldable pub from_utf8 : List ℕ → Option Text
unfolding is_utf8
from_utf8 bytes = if is_utf8 bytes then some bytes else none

pub is_utf8-ascii : (s : Text) → All (λ b. b < 0x80) s → is_utf8 s ≡ true
unfolding is_utf8
is_utf8-ascii [] h = refl
is_utf8-ascii (b ∷ s) h = ground (arith, is_utf8-ascii s h.1)

pub from_utf8_text : (s : List ℕ) → is_utf8 s ≡ true → from_utf8 s ≡ some s
unfolding from_utf8
from_utf8_text s h = rw h

pub from_utf8_malformed : (s : List ℕ) → is_utf8 s ≡ false → from_utf8 s ≡ none
unfolding from_utf8
from_utf8_malformed s h = rw h
