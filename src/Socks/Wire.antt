-- ===== src/Socks/Wire.antt =====
-- Constants, replies, commands and address types of src/socks_proxy.rs.
use Prim.Native.Nat.{bit_or}
use kitty_proxy.Common.{
  ltb, length, ◌≡◌, ℕ, ◌+◌, ◌*◌, ◌%◌, ◌^◌, List, [], ◌∷◌, Option, none, some, get_or, ◌==◌,
  if◌then◌else◌,
}
use kitty_proxy.Common.Outcome.{Outcome, ok, panic}
use kitty_proxy.Text.Utf8.{from_utf8}
use kitty_proxy.Types.{ResponseCode, discriminant, KittyProxyError, Host, ipv4, ipv6}
use kitty_proxy.Socks.Stream.{Stream, write_all}

abbrev pub socks_version : ℕ
socks_version = 0x05

abbrev pub reserved : ℕ
reserved = 0x00

-- `status as u8` keeps the low byte of the discriminant.
unfoldable pub reply_code : ResponseCode → ℕ
unfolding discriminant
reply_code status = discriminant status % 2 ^ 8

-- Its one field: the ten bytes of `buf`.
abbrev pub SocksReply : Type 0
SocksReply = List ℕ

-- `SocksReply::new`
unfoldable pub socks_reply : ResponseCode → SocksReply
unfolding reply_code
socks_reply status = socks_version ∷ reply_code status ∷ reserved ∷ 1 ∷ 0 ∷ 0 ∷ 0 ∷ 0 ∷ 0 ∷ 0 ∷ []

-- `SocksReply::send`
unfoldable pub send : SocksReply → Stream → Outcome KittyProxyError (Unit {0}) × Stream
unfolding write_all
send buf = write_all buf

pub data AddrType : Type 0 where
  v4 domain v6 : AddrType

unfoldable pub addr_type_from : ℕ → Option AddrType
addr_type_from n =
    if n == 1
    then some AddrType.v4
    else if n == 3
    then some AddrType.domain
    else if n == 4
    then some AddrType.v6
    else none

pub data SockCommand : Type 0 where
  connect bind udp_assosiate : SockCommand

unfoldable pub sock_command_from : ℕ → Option SockCommand
sock_command_from n =
    if n == 1
    then some connect
    else if n == 2
    then some bind
    else if n == 3
    then some udp_assosiate
    else none

-- `AuthMethod::NoAuth` and `NoMethod`
abbrev pub no_auth : ℕ
no_auth = 0x00

abbrev pub no_method : ℕ
no_method = 0xff

-- `(u16::from(hi) << 8) | u16::from(lo)`
unfoldable pub be_u16 : ℕ → ℕ → ℕ
be_u16 hi lo = bit_or (hi * 256) lo

-- Bytes 2x and 2x + 1 of the address, and so on: `new_addr`.
segment : List ℕ → ℕ → ℕ
unfolding be_u16
segment addr x = be_u16 (get_or addr (x * 2) 0) (get_or addr (x * 2 + 1) 0)

-- An index that is out of range panics.
unfoldable pub addr_to_host : {E : Type 0} → AddrType → List ℕ → Outcome E Host
unfolding segment from_utf8
addr_to_host AddrType.v6 addr =
    if ltb 15 (length addr)
    then ok (
        ipv6 (record {
          s0 = segment addr 0;
          s1 = segment addr 1;
          s2 = segment addr 2;
          s3 = segment addr 3;
          s4 = segment addr 4;
          s5 = segment addr 5;
          s6 = segment addr 6;
          s7 = segment addr 7;
        }))
    else panic
addr_to_host AddrType.v4 addr =
    if ltb 3 (length addr)
    then ok (
        ipv4 (record {
          a = get_or addr 0 0;
          b = get_or addr 1 0;
          c = get_or addr 2 0;
          d = get_or addr 3 0;
        }))
    else panic
addr_to_host AddrType.domain addr = elim (from_utf8 addr) [
  | none ↦ panic
  | some name ↦ ok (Host.domain name)
]

-- `dst_addr` has read as many bytes as the type of the address takes.
abbrev pub HasSize : AddrType → List ℕ → Type 0
HasSize AddrType.domain addr = Unit
HasSize AddrType.v4 addr = length addr ≡ 4
HasSize AddrType.v6 addr = length addr ≡ 16
