-- ===== src/Socks/Request/Bounds.antt =====
-- The sizes in a request that `from_stream` of src/socks_proxy.rs returns.
use kitty_proxy.Common.{
  ℕ, ◌+◌, ◌^◌, ◌≤◌, ◌<◌, List, [], ◌∷◌, ◌++◌, ◌≡◌, ap, subst, arith, length, length-append, All,
  All-left, All-right,
}
use kitty_proxy.Common.Outcome.{ok}
use kitty_proxy.Types.{Host, ipv4, ipv6, domain}
use kitty_proxy.Socks.Stream.{Stream}
use kitty_proxy.Socks.Wire.{SockCommand}
use kitty_proxy.Socks.Request.{SocksReq, from_stream}
use kitty_proxy.Socks.Request.Roundtrip.{word, host_bytes, command_byte, atyp}
use kitty_proxy.Socks.Request.Sound.{IsByte, encode_with, from_stream-IsRead}

-- The fields of a host fit the `u8`s and `u16`s that hold them; a name is as long as one byte says.
abbrev pub InRange : Host → Type 0
InRange (ipv4 h) = (h.a < 256) × (h.b < 256) × (h.c < 256) × (h.d < 256)
InRange (ipv6 h) =
    (h.s0 < 2 ^ 16)
    × (h.s1 < 2 ^ 16)
    × (h.s2 < 2 ^ 16)
    × (h.s3 < 2 ^ 16)
    × (h.s4 < 2 ^ 16)
    × (h.s5 < 2 ^ 16)
    × (h.s6 < 2 ^ 16)
    × (h.s7 < 2 ^ 16)
InRange (domain name) = length name < 256

host_bytes-InRange :
    (h : Host) → All IsByte (host_bytes h) → InRange h × (length (host_bytes h) ≤ 256)
host_bytes-InRange (ipv4 h) b = omega arith
host_bytes-InRange (ipv6 h) b = omega arith
host_bytes-InRange (domain name) b = omega arith

word-lt : (w : ℕ) → All IsByte (word w []) → w < 2 ^ 16
word-lt w b = omega arith

module _ (methods : List ℕ) (version reserved : ℕ) (c : SockCommand) (h : Host) (port : ℕ)
    (bytes : All IsByte (encode_with methods version reserved c h port)) where
  abbrev greeted : List ℕ
  greeted = 5 ∷ length methods ∷ methods

  abbrev packet : List ℕ
  packet = version ∷ command_byte c ∷ reserved ∷ atyp h ∷ []

  before_port : All IsByte ((greeted ++ packet) ++ host_bytes h)
  before_port = All-left IsByte ((greeted ++ packet) ++ host_bytes h) (word port []) bytes

  length-encode_with :
      length (encode_with methods version reserved c h port)
      ≡ length methods + length (host_bytes h) + 8
  length-encode_with = omega (
    arith,
    length-append {0} ((greeted ++ packet) ++ host_bytes h) (word port []),
    length-append {0} (greeted ++ packet) (host_bytes h),
    length-append {0} greeted packet,
  )

  sizes :
      (port < 2 ^ 16) × (length (encode_with methods version reserved c h port) ≤ 519) × InRange h
  sizes = (
    word-lt port (All-right IsByte ((greeted ++ packet) ++ host_bytes h) (word port []) bytes),
    omega (arith, length-encode_with, methods_lt, sized),
    (host_bytes-InRange h address).0,
  )
    where
      address : All IsByte (host_bytes h)
      address = All-right IsByte (greeted ++ packet) (host_bytes h) before_port

      sized : length (host_bytes h) ≤ 256
      sized = (host_bytes-InRange h address).1

      methods_lt : length methods < 256
      methods_lt =
          (All-left IsByte greeted packet
            (All-left IsByte (greeted ++ packet) (host_bytes h) before_port)).1.0

-- A request that `from_stream` returns from a client that sends bytes fits its types: the port is a
-- `u16`, the parts of an address are in range, a name has less than 256 bytes, and the buffer, which
-- is passed on to a node, has at most 519.
pub from_stream_bounds :
    (s t : Stream) (req : SocksReq)
    → All IsByte s.input
    → from_stream s ≡ (ok req, t)
    → (req.port < 2 ^ 16) × (length req.readed_buffer ≤ 519) × InRange req.host
from_stream_bounds s t req bytes h =
    let (methods, reserved, offered, buffer, read) = from_stream-IsRead s t req bytes h in
    let all : All IsByte req.readed_buffer =
      All-left IsByte req.readed_buffer t.input (subst (All IsByte) read bytes) in
    let (port, size, host) =
      sizes methods req.version reserved req.command req.host req.port
        (subst (All IsByte) buffer all) in
    (port, omega (arith, size, ap length buffer), host)
