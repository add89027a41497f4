-- ===== src/Socks/Request/Sound.antt =====
-- Every request that `from_stream` of src/socks_proxy.rs returns is the one that the bytes it read
-- are the RFC 1928 form of.
use kitty_proxy.Common.{
  ℕ, zero, suc, ◌/◌, ◌%◌, ◌<◌, List, [], ◌∷◌, ◌++◌, ◌≡◌, sym, ap, subst, ◌∙◌, true, some, arith,
  length, get_or, All, All-left, All-right, Option-cases, inl, inr,
}
use kitty_proxy.Common.Bits.{bit_or_byte}
use kitty_proxy.Common.Outcome.{
  Outcome, ok, panic, Ensures, Ensures-ok, ensured, bind-Ensures, lift, lift-Ensures,
}
use kitty_proxy.Text.Utf8.{from_utf8}
use kitty_proxy.Types.{KittyProxyError, Host}
use kitty_proxy.Socks.Stream.{Stream, read_exact}
use kitty_proxy.Socks.Wire.{
  SockCommand, sock_command_from, AddrType, addr_type_from, addr_to_host, HasSize, be_u16,
}
use kitty_proxy.Socks.Request.{
  SocksReq, contains_byte, greeting, request_head, dst_addr, from_stream,
}
use kitty_proxy.Socks.Request.Roundtrip.{command_byte, word, atyp, host_bytes}
use kitty_proxy.Socks.Request.Consumed.{
  tabulate_lem, joined, read_exact-Ensures, greeting-Ensures, IsHead, request_head-Ensures,
  sent_address, dst_addr-Ensures,
}

abbrev pub IsByte : ℕ → Type 0
IsByte b = b < 256

get_or-IsByte : (bytes : List ℕ) (i : ℕ) → All IsByte bytes → IsByte (get_or bytes i 0)
get_or-IsByte [] i h = omega arith
get_or-IsByte (b ∷ bytes) zero h = h.0
get_or-IsByte (b ∷ bytes) (suc i) h = get_or-IsByte bytes i h.1

upper : (hi lo : ℕ) → IsByte lo → be_u16 hi lo / 256 ≡ hi
unfolding be_u16
upper hi lo h = rw (bit_or_byte hi lo h) (omega arith)

lower : (hi lo : ℕ) → IsByte lo → be_u16 hi lo % 256 ≡ lo
unfolding be_u16
lower hi lo h = rw (bit_or_byte hi lo h) (omega arith)

ok_eq : {E A : Type 0} {a b : A} → ◌≡◌ {A = Outcome E A} (ok a) (ok b) → a ≡ b
ok_eq e = cc

from_utf8-eq-some : (bytes name : List ℕ) → from_utf8 bytes ≡ some name → name ≡ bytes
unfolding from_utf8
from_utf8-eq-some bytes name h = ground arith

-- The bytes of an address are those of the host that it is read as.
addr_to_host-eq-ok :
    (k : AddrType) (addr : List ℕ) (h : Host)
    → HasSize k addr
    → All IsByte addr
    → addr_to_host {E = KittyProxyError} k addr ≡ ok h
    → sent_address k addr ≡ host_bytes h
unfolding addr_to_host
addr_to_host-eq-ok AddrType.v4 addr h size bytes e =
    tabulate_lem 4 addr size ∙ ap host_bytes (ok_eq (rw (size, addr_to_host) at e))
addr_to_host-eq-ok AddrType.v6 addr h size bytes e =
    tabulate_lem 16 addr size
    ∙ sym (simp (high, low))
    ∙ ap host_bytes (ok_eq (rw (size, addr_to_host) at e))
  where
    high : (i j : ℕ) → be_u16 (get_or addr i 0) (get_or addr j 0) / 256 ≡ get_or addr i 0
    high i j = upper (get_or addr i 0) (get_or addr j 0) (get_or-IsByte addr j bytes)

    low : (i j : ℕ) → be_u16 (get_or addr i 0) (get_or addr j 0) % 256 ≡ get_or addr j 0
    low i j = lower (get_or addr i 0) (get_or addr j 0) (get_or-IsByte addr j bytes)
addr_to_host-eq-ok AddrType.domain addr h size bytes e = elim (Option-cases (from_utf8 addr)) [
  | inl bad ↦ failed (rw (bad, addr_to_host) at e)
  | inr (name, good) ↦
      ap (λ n. length n ∷ n) (sym (from_utf8-eq-some addr name good))
      ∙ ap host_bytes (ok_eq (rw (good, addr_to_host) at e))
]
  where
    failed : ◌≡◌ {A = Outcome KittyProxyError Host} panic (ok h) → length addr ∷ addr ≡ host_bytes h
    failed e = cc

command_byte-eq-some : (b : ℕ) (c : SockCommand) → sock_command_from b ≡ some c → b ≡ command_byte c
unfolding sock_command_from
command_byte-eq-some b c h = ground arith

atyp-eq-some :
    (b : ℕ) (k : AddrType) (addr : List ℕ) (h : Host)
    → addr_type_from b ≡ some k
    → addr_to_host {E = KittyProxyError} k addr ≡ ok h
    → b ≡ atyp h
unfolding addr_type_from addr_to_host
atyp-eq-some b AddrType.v4 addr h t e = ground arith
atyp-eq-some b AddrType.v6 addr h t e = ground arith
atyp-eq-some b AddrType.domain addr h t e = ground arith

-- A request as RFC 1928 writes it; the version and the reserved byte of the packet are free.
abbrev pub encode_with : List ℕ → ℕ → ℕ → SockCommand → Host → ℕ → List ℕ
encode_with methods version reserved c h port =
    (5 ∷ length methods ∷ methods)
    ++ (version ∷ command_byte c ∷ reserved ∷ atyp h ∷ [])
    ++ host_bytes h
    ++ word port []

abbrev pub IsRead : Stream → SocksReq → Stream → Type 0
IsRead s req t =
    (methods : List ℕ) × (reserved : ℕ) × (contains_byte methods 0 ≡ true)
    × (req.readed_buffer ≡ encode_with methods req.version reserved req.command req.host req.port)
    × (s.input ≡ req.readed_buffer ++ t.input)

address-IsByte : (k : AddrType) (addr : List ℕ) → All IsByte (sent_address k addr) → All IsByte addr
address-IsByte AddrType.domain addr h = h.1
address-IsByte AddrType.v4 addr h = h
address-IsByte AddrType.v6 addr h = h

module _ (s s1 s2 s3 t : Stream) (methods packet raw addr port : List ℕ) (c : SockCommand)
    (k : AddrType) (h : Host) (bytes : All IsByte s.input)
    (r1 : s.input ≡ (5 ∷ length methods ∷ methods) ++ s1.input) (r2 : s1.input ≡ packet ++ s2.input)
    (r3 : s2.input ≡ raw ++ s3.input) (r4 : s3.input ≡ port ++ t.input) where
  after_head : All IsByte s2.input
  after_head = All-right IsByte packet s2.input (
      subst (All IsByte) r2
        (All-right IsByte (5 ∷ length methods ∷ methods) s1.input (subst (All IsByte) r1 bytes)))

  after_address : All IsByte s3.input
  after_address = All-right IsByte raw s3.input (subst (All IsByte) r3 after_head)

  assembled :
      contains_byte methods 0 ≡ true
      → IsHead packet c k
      → raw ≡ sent_address k addr
      → HasSize k addr
      → length port ≡ 2
      → addr_to_host {E = KittyProxyError} k addr ≡ ok h
      → IsRead s
          (record {
            version = get_or packet 0 0;
            command = c;
            host = h;
            port = be_u16 (get_or port 0 0) (get_or port 1 0);
            readed_buffer = (5 ∷ length methods ∷ methods) ++ packet ++ raw ++ port;
          })
          t
  assembled offered (v, cb, r, ab, head, cmd, typ) sent size two host = (
    methods,
    r,
    offered,
    ap (λ p. greeted ++ packet ++ raw ++ p) port_is
        ∙ ap (λ a. greeted ++ packet ++ a ++ number)
            (sent ∙ addr_to_host-eq-ok k addr h size addr_bytes host)
        ∙ ap (λ q. greeted ++ q ++ host_bytes h ++ number) packet_is,
    joined (greeted ++ packet ++ raw) port t.input
        (joined (greeted ++ packet) raw s3.input (joined greeted packet s2.input r1 r2) r3) r4,
  )
    where
      greeted : List ℕ
      greeted = 5 ∷ length methods ∷ methods

      number : List ℕ
      number = word (be_u16 (get_or port 0 0) (get_or port 1 0)) []

      addr_bytes : All IsByte addr
      addr_bytes = address-IsByte k addr (
          subst (All IsByte) sent (All-left IsByte raw s3.input (subst (All IsByte) r3 after_head)))

      port_bytes : All IsByte port
      port_bytes = All-left IsByte port t.input (subst (All IsByte) r4 after_address)

      port_is : port ≡ number
      port_is =
          tabulate_lem 2 port two
          ∙ sym (
              simp (
                upper (get_or port 0 0) (get_or port 1 0) (get_or-IsByte port 1 port_bytes),
                lower (get_or port 0 0) (get_or port 1 0) (get_or-IsByte port 1 port_bytes),
              ))

      packet_is : packet ≡ get_or packet 0 0 ∷ command_byte c ∷ r ∷ atyp h ∷ []
      packet_is =
          ground (arith, head, command_byte-eq-some cb c cmd, atyp-eq-some ab k addr h typ host)

-- Whenever `from_stream` returns a request from a client that sends bytes, it has read exactly the
-- RFC 1928 form of that request, for methods that offer "no authentication": the buffer is that form,
-- with the request's own command, host and port, and what follows it is left unread. Only the version
-- and the reserved byte of the packet may be any.
pub from_stream-IsRead :
    (s t : Stream) (req : SocksReq)
    → All IsByte s.input
    → from_stream s ≡ (ok req, t)
    → IsRead s req t
unfolding from_stream
from_stream-IsRead s t req bytes h = ensured parsed h
  where
    parsed : Ensures (λ req t. IsRead s req t) (from_stream s)
    parsed =
        bind-Ensures greeting _ s (greeting-Ensures s)
          λ greeted s1 (methods, is_greeting, r1, offered).
            bind-Ensures request_head _ s1 (request_head-Ensures s1) λ (packet, c, k) s2 (head, r2).
              bind-Ensures (dst_addr k) _ s2 (dst_addr-Ensures k s2)
                λ (raw, addr) s3 (sent, r3, size).
                  bind-Ensures (read_exact 2) _ s3 (read_exact-Ensures 2 s3) λ port s4 (two, r4).
                    bind-Ensures (lift (addr_to_host k addr)) _ s4
                      (lift-Ensures (addr_to_host k addr) s4)
                      λ host s5 (e, same). Ensures-ok _ s5 (
                        subst
                          (λ g.
                            IsRead s
                              (record {
                                version = get_or packet 0 0;
                                command = c;
                                host = host;
                                port = be_u16 (get_or port 0 0) (get_or port 1 0);
                                readed_buffer = g ++ packet ++ raw ++ port;
                              })
                              s5)
                          (sym is_greeting)
                          (assembled s s1 s2 s3 s5 methods packet raw addr port c k host bytes
                            (r1 ∙ ap (λ g. g ++ s1.input) is_greeting) r2 r3
                            (r4 ∙ ap (λ (u : Stream). port ++ u.input) same) offered head sent size
                            two e))
