-- ===== src/Socks/Request/Roundtrip.antt =====
-- A request that a client writes is the request that `from_stream` returns.
use kitty_proxy.Common.{
  ℕ, ◌/◌, ◌%◌, List, [], ◌∷◌, ◌++◌, ◌≡◌, refl, ◌∙◌, true, false, some, arith, length,
}
use mathlib.Core.List.{append_assoc}
use kitty_proxy.Common.Bits.{bit_or_byte}
use kitty_proxy.Common.Outcome.{ok, panic, continue, pure}
use kitty_proxy.Text.Utf8.{is_utf8, from_utf8_malformed, from_utf8_text}
use kitty_proxy.Types.{KittyProxyError, Host, ipv4, ipv6, domain}
use kitty_proxy.Socks.Stream.{Stream}
use kitty_proxy.Socks.Wire.{
  SockCommand, connect, bind, udp_assosiate, sock_command_from, AddrType, addr_type_from, be_u16,
  addr_to_host,
}
use kitty_proxy.Socks.Request.{SocksReq, contains_byte, dst_addr, from_stream}
use kitty_proxy.Socks.Request.Parts.{
  IsOpen, read_exact-append, greeting_accepts, request_head_accepts, dst_addr_v4, dst_addr_v6,
  dst_addr_domain,
}

-- The request format of RFC 1928, as the comment in `from_stream` draws it.
abbrev pub command_byte : SockCommand → ℕ
command_byte connect = 1
command_byte bind = 2
command_byte udp_assosiate = 3

-- A 16-bit word in network order.
abbrev pub word : ℕ → List ℕ → List ℕ
word w rest = (w / 256) ∷ (w % 256) ∷ rest

abbrev pub atyp : Host → ℕ
atyp (ipv4 _) = 1
atyp (domain _) = 3
atyp (ipv6 _) = 4

abbrev pub host_bytes : Host → List ℕ
host_bytes (ipv4 h) = h.a ∷ h.b ∷ h.c ∷ h.d ∷ []
host_bytes (domain name) = length name ∷ name
host_bytes (ipv6 h) =
    word h.s0 (word h.s1 (word h.s2 (word h.s3 (word h.s4 (word h.s5 (word h.s6 (word h.s7 [])))))))

abbrev pub encode : List ℕ → SockCommand → Host → ℕ → List ℕ
encode methods c h port =
    (5 ∷ length methods ∷ methods)
    ++ (5 ∷ command_byte c ∷ 0 ∷ atyp h ∷ [])
    ++ host_bytes h
    ++ word port []

-- The name in a domain is a Rust string.
abbrev pub IsText : Host → Type 0
IsText (ipv4 _) = Unit {0}
IsText (ipv6 _) = Unit {0}
IsText (domain name) = is_utf8 name ≡ true

addr_type : Host → AddrType
addr_type (ipv4 _) = AddrType.v4
addr_type (domain _) = AddrType.domain
addr_type (ipv6 _) = AddrType.v6

-- The bytes that `addr_to_host` is given.
payload : Host → List ℕ
payload (ipv4 h) = host_bytes (ipv4 h)
payload (domain name) = name
payload (ipv6 h) = host_bytes (ipv6 h)

be_u16-word : (w : ℕ) → be_u16 (w / 256) (w % 256) ≡ w
unfolding be_u16
be_u16-word w = bit_or_byte (w / 256) (w % 256) (omega arith) ∙ omega arith

dst_addr_accepts :
    (s : Stream) (h : Host) (rest : List ℕ)
    → s.input ≡ host_bytes h ++ rest
    → dst_addr (addr_type h) s ≡ (ok (host_bytes h, payload h), record s { input = rest })
unfolding addr_type payload
dst_addr_accepts s (ipv4 h) rest e = dst_addr_v4 s h.a h.b h.c h.d rest e
dst_addr_accepts s (domain name) rest e = dst_addr_domain s name rest e
dst_addr_accepts s (ipv6 h) rest e = dst_addr_v6 s (host_bytes (ipv6 h)) rest refl e

addr_to_host-payload :
    {E : Type 0} (h : Host) → IsText h → addr_to_host {E = E} (addr_type h) (payload h) ≡ ok h
unfolding addr_type payload addr_to_host
addr_to_host-payload (ipv4 h) v = refl
addr_to_host-payload (domain name) v = rw (from_utf8_text name v, addr_to_host)
addr_to_host-payload (ipv6 h) v = simp be_u16-word

commands : (c : SockCommand) → sock_command_from (command_byte c) ≡ some c
unfolding sock_command_from
commands connect = refl
commands bind = refl
commands udp_assosiate = refl

types : (h : Host) → addr_type_from (atyp h) ≡ some (addr_type h)
unfolding addr_type_from addr_type
types (ipv4 h) = refl
types (domain h) = refl
types (ipv6 h) = refl

-- The state in which the parser stands after the bytes up to `rest`, the greeting answered.
abbrev pub answered : Stream → List ℕ → Stream
answered s rest = record s { input = rest; output = s.output ++ 5 ∷ 0 ∷ [] }

abbrev pub request_of : List ℕ → SockCommand → Host → ℕ → Host → SocksReq
request_of methods c h port host = record {
  version = 5;
  command = c;
  host = host;
  port = port;
  readed_buffer = encode methods c h port;
}

module _ (s : Stream) (methods : List ℕ) (c : SockCommand) (h : Host) (port : ℕ) (rest : List ℕ)
    (o : IsOpen s) (e : s.input ≡ encode methods c h port ++ rest)
    (offered : contains_byte methods 0 ≡ true) where
  -- All but the host is read.
  read_request :
      from_stream s
      ≡ continue
          (addr_to_host (addr_type h) (payload h))
          (λ host. pure (request_of methods c h port host))
          (answered s rest)
  unfolding from_stream
  read_request =
      rw
        (
          greeting_accepts s methods after_greeting o greeted offered,
          request_head_accepts (answered s after_greeting) (command_byte c) 0 (atyp h) after_head c
              (addr_type h) refl (commands c) (types h),
          dst_addr_accepts (answered s after_head) h (word port rest) refl,
          read_exact-append (answered s (word port rest)) (word port []) rest refl,
          be_u16-word port,
        )
        refl
    where
      after_head : List ℕ
      after_head = host_bytes h ++ word port rest

      after_greeting : List ℕ
      after_greeting = 5 ∷ command_byte c ∷ 0 ∷ atyp h ∷ after_head

      greeted : s.input ≡ 5 ∷ length methods ∷ methods ++ after_greeting
      greeted = e ∙ simp append_assoc

  -- From a client that offers "no authentication", writes its request by RFC 1928, and names a host
  -- whose domain is UTF-8, over a stream that is open and without faults, `from_stream` returns
  -- that request: command, host and port are the client's, the buffer holds exactly the bytes that
  -- were read, what follows them stays unread, and the only answer is the chosen method.
  pub from_stream-encode :
      IsText h → from_stream s ≡ (ok (request_of methods c h port h), answered s rest)
  from_stream-encode t = read_request ∙ rw (addr_to_host-payload h t)

-- A request that a client writes by RFC 1928, offering "no authentication", for a domain whose
-- bytes are not UTF-8, over a stream that is open and without faults, makes `from_stream` panic
-- after the method was granted.
pub from_stream_panics :
    (s : Stream) (methods : List ℕ) (c : SockCommand) (name : List ℕ) (port : ℕ) (rest : List ℕ)
    → IsOpen s
    → s.input ≡ encode methods c (domain name) port ++ rest
    → contains_byte methods 0 ≡ true
    → is_utf8 name ≡ false
    → from_stream s ≡ (panic, answered s rest)
from_stream_panics s methods c name port rest o e offered bad =
    read_request s methods c (domain name) port rest o e offered ∙ rw malformed
  where
    malformed :
        addr_to_host {E = KittyProxyError} (addr_type (domain name)) (payload (domain name)) ≡ panic
    malformed =
        unfold addr_type payload addr_to_host in rw (from_utf8_malformed name bad, addr_to_host)
