-- ===== src/Traffic/IpNumber.antt =====
-- `MatchProxy::ip_to_number` of src/traffic_diversion.rs: an IPv4 address as a `u32`, by way of its
-- text.
use Prim.Native.Nat.{bit_or}
use kitty_proxy.Common.{
  ℕ, zero, suc, ◌+◌, ◌*◌, ◌%◌, ◌^◌, ◌<◌, List, [], ◌∷◌, ◌≡◌, ◌∙◌, ap, Option, none, some, map,
  arith,
}
use kitty_proxy.Common.Bits.{bit_or_byte, bit_or_16, bit_or_24}
use kitty_proxy.Common.Outcome.{Outcome, ok, panic, and_then}
use kitty_proxy.Text.Decimal.{
  to_string, split, parse_u8, split-join, to_string-free, parse_u8-to_string,
}
use kitty_proxy.Types.{Ipv4Addr}
use kitty_proxy.Types.Display.{ipv4_to_string}

unwrap_or : Option ℕ → ℕ → ℕ
unwrap_or none d = d
unwrap_or (some n) d = n

-- `octets[i]` panics out of range.
at : List ℕ → ℕ → Outcome (Unit {0}) ℕ
at [] i = panic
at (x ∷ xs) zero = ok x
at (x ∷ xs) (suc i) = at xs i

-- `<<` on `u32`
shl : ℕ → ℕ → ℕ
shl n k = (n * 2 ^ k) % 2 ^ 32

number_of : List ℕ → Outcome (Unit {0}) ℕ
unfolding at shl
number_of octets = and_then (at octets 0) λ a. and_then (at octets 1) λ b.
    and_then (at octets 2) λ c.
      and_then (at octets 3) λ d. ok (bit_or (bit_or (bit_or (shl a 24) (shl b 16)) (shl c 8)) d)

pub ip_to_number : Ipv4Addr → Outcome (Unit {0}) ℕ
unfolding number_of ipv4_to_string unwrap_or
ip_to_number ip =
    number_of (map (λ octet. unwrap_or (parse_u8 octet) 0) (split b'.' (ipv4_to_string ip)))

-- Four octets.
pub record IsIpv4 (ip : Ipv4Addr) : Type 0 where
  pub a : ip.a < 256
  pub b : ip.b < 256
  pub c : ip.c < 256
  pub d : ip.d < 256

read_back : (n : ℕ) → n < 256 → unwrap_or (parse_u8 (to_string n)) 0 ≡ n
unfolding unwrap_or
read_back n h = rw (parse_u8-to_string n h)

octets_of :
    (ip : Ipv4Addr)
    → IsIpv4 ip
    → map (λ octet. unwrap_or (parse_u8 octet) 0) (split b'.' (ipv4_to_string ip))
      ≡ ip.a ∷ ip.b ∷ ip.c ∷ ip.d ∷ []
unfolding ipv4_to_string
octets_of ip h =
    ap (map λ octet. unwrap_or (parse_u8 octet) 0) (
      split-join b'.' (to_string ip.a) (to_string ip.b ∷ to_string ip.c ∷ to_string ip.d ∷ [])
        (to_string-free ip.a h.a)
        (to_string-free ip.b h.b, (to_string-free ip.c h.c, (to_string-free ip.d h.d, tt))))
    ∙ rw (read_back ip.a h.a, read_back ip.b h.b, read_back ip.c h.c, read_back ip.d h.d)

joined :
    (a b c d : ℕ)
    → b < 256
    → c < 256
    → d < 256
    → bit_or (bit_or (bit_or (a * 16777216) (b * 65536)) (c * 256)) d
      ≡ a * 16777216 + b * 65536 + c * 256 + d
joined a b c d hb hc hd =
    rw (bit_or_24 a (b * 65536) (omega (arith, hb)), two, three, four) (omega arith)
  where
    two : a * 16777216 + b * 65536 ≡ (a * 256 + b) * 65536
    two = omega arith

    three : bit_or ((a * 256 + b) * 65536) (c * 256) ≡ ((a * 256 + b) * 256 + c) * 256
    three = bit_or_16 (a * 256 + b) (c * 256) (omega (arith, hc)) ∙ omega arith

    four : bit_or (((a * 256 + b) * 256 + c) * 256) d ≡ ((a * 256 + b) * 256 + c) * 256 + d
    four = bit_or_byte ((a * 256 + b) * 256 + c) d hd

shl_24 : (n : ℕ) → n < 256 → shl n 24 ≡ n * 16777216
unfolding shl
shl_24 n h = omega (arith, h)

shl_16 : (n : ℕ) → n < 256 → shl n 16 ≡ n * 65536
unfolding shl
shl_16 n h = omega (arith, h)

shl_8 : (n : ℕ) → n < 256 → shl n 8 ≡ n * 256
unfolding shl
shl_8 n h = omega (arith, h)

number_of_lem :
    (a b c d : ℕ)
    → a < 256
    → b < 256
    → c < 256
    → d < 256
    → number_of (a ∷ b ∷ c ∷ d ∷ []) ≡ ok (a * 16777216 + b * 65536 + c * 256 + d)
unfolding number_of at
number_of_lem a b c d ha hb hc hd =
    rw (shl_24 a ha, shl_16 b hb, shl_8 c hc) (ap ok (joined a b c d hb hc hd))

-- An address of four octets comes out as the number with these octets as its digits to the base 256,
-- the first octet the highest, and it fits in 32 bits: no octet is lost on the way through the text.
pub ip_to_number_lem :
    (ip : Ipv4Addr)
    → IsIpv4 ip
    → (ip_to_number ip ≡ ok (ip.a * 16777216 + ip.b * 65536 + ip.c * 256 + ip.d))
      × (ip.a * 16777216 + ip.b * 65536 + ip.c * 256 + ip.d < 2 ^ 32)
unfolding ip_to_number
ip_to_number_lem ip h = (
  ap number_of (octets_of ip h) ∙ number_of_lem ip.a ip.b ip.c ip.d h.a h.b h.c h.d,
  omega (arith, h.a, h.b, h.c, h.d),
)
