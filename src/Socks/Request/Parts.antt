-- ===== src/Socks/Request/Parts.antt =====
-- Each read of the parser on a client that has sent enough.
use kitty_proxy.Common.{
  ℕ, List, [], ◌∷◌, ◌++◌, ◌≡◌, refl, true, false, arith, length, leb, length-append, take-append,
  drop-append, some,
}
use kitty_proxy.Common.Outcome.{ok}
use kitty_proxy.Socks.Stream.{Stream, read_exact, write_all, shutdown}
use kitty_proxy.Socks.Wire.{SockCommand, sock_command_from, AddrType, addr_type_from}
use kitty_proxy.Socks.Request.{contains_byte, greeting, request_head, dst_addr}

pub read_exact-append :
    (s : Stream) (xs rest : List ℕ)
    → s.input ≡ xs ++ rest
    → read_exact (length xs) s ≡ (ok xs, record s { input = rest })
unfolding read_exact
read_exact-append s xs rest e = rw (e, enough, take-append xs rest, drop-append xs rest)
  where
    enough : leb (length xs) (length (xs ++ rest)) ≡ true
    enough = ground (arith, length-append xs rest)

-- What the network lets through: the sending side is open and no fault is due.
pub record IsOpen (s : Stream) : Type 0 where
  pub open_side : s.is_shut ≡ false
  pub no_fault : s.faults ≡ []

pub write_all-IsOpen :
    (s : Stream) (bytes : List ℕ)
    → IsOpen s
    → write_all bytes s ≡ (ok tt, record s { output = s.output ++ bytes })
unfolding write_all
write_all-IsOpen s bytes o = rw (o.open_side, o.no_fault)

pub shutdown-IsOpen : (s : Stream) → IsOpen s → shutdown s ≡ (ok tt, record s { is_shut = true })
unfolding shutdown
shutdown-IsOpen s o = rw o.no_fault

-- The greeting of a client that offers "no authentication" is answered with it.
pub greeting_accepts :
    (s : Stream) (ms rest : List ℕ)
    → IsOpen s
    → s.input ≡ 5 ∷ length ms ∷ ms ++ rest
    → contains_byte ms 0 ≡ true
    → greeting s
      ≡ (ok (5 ∷ length ms ∷ ms), record s { input = rest; output = s.output ++ 5 ∷ 0 ∷ [] })
unfolding greeting
greeting_accepts s ms rest o e h =
    rw
      (
        read_exact-append s (5 ∷ length ms ∷ []) (ms ++ rest) e,
        read_exact-append (record s { input = ms ++ rest }) ms rest refl,
        h,
      )
      (rw (
        write_all-IsOpen (record s { input = rest }) (5 ∷ 0 ∷ [])
          (record { open_side = o.open_side; no_fault = o.no_fault })))

-- A head of version 5 with a known command and address type.
pub request_head_accepts :
    (s : Stream) (cb rsv atyp : ℕ) (rest : List ℕ) (c : SockCommand) (t : AddrType)
    → s.input ≡ 5 ∷ cb ∷ rsv ∷ atyp ∷ rest
    → sock_command_from cb ≡ some c
    → addr_type_from atyp ≡ some t
    → request_head s ≡ (ok (5 ∷ cb ∷ rsv ∷ atyp ∷ [], c, t), record s { input = rest })
unfolding request_head
request_head_accepts s cb rsv atyp rest c t e hc ht =
    rw (read_exact-append s (5 ∷ cb ∷ rsv ∷ atyp ∷ []) rest e, hc, ht)

pub dst_addr_v4 :
    (s : Stream) (a b c d : ℕ) (rest : List ℕ)
    → s.input ≡ a ∷ b ∷ c ∷ d ∷ rest
    → dst_addr AddrType.v4 s
      ≡ (ok (a ∷ b ∷ c ∷ d ∷ [], a ∷ b ∷ c ∷ d ∷ []), record s { input = rest })
unfolding dst_addr
dst_addr_v4 s a b c d rest e = rw (read_exact-append s (a ∷ b ∷ c ∷ d ∷ []) rest e)

pub dst_addr_v6 :
    (s : Stream) (addr rest : List ℕ)
    → length addr ≡ 16
    → s.input ≡ addr ++ rest
    → dst_addr AddrType.v6 s ≡ (ok (addr, addr), record s { input = rest })
unfolding dst_addr
dst_addr_v6 s addr rest n e = rw (read_16)
  where
    read_16 : read_exact 16 s ≡ (ok addr, record s { input = rest })
    read_16 = rw n at (read_exact-append s addr rest e)

pub dst_addr_domain :
    (s : Stream) (name rest : List ℕ)
    → s.input ≡ length name ∷ name ++ rest
    → dst_addr AddrType.domain s ≡ (ok (length name ∷ name, name), record s { input = rest })
unfolding dst_addr
dst_addr_domain s name rest e = rw (
  read_exact-append s (length name ∷ []) (name ++ rest) e,
  read_exact-append (record s { input = name ++ rest }) name rest refl,
)
