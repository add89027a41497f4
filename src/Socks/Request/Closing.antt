-- ===== src/Socks/Request/Closing.antt =====
-- Where `from_stream` refuses a request it closes the sending side first, so that nothing written
-- afterwards reaches the client.
use kitty_proxy.Common.{
  ltb, length, ℕ, List, [], ◌≡◌, ◌≢◌, refl, subst, Bool, true, false, Option, none, some, arith,
  ◌==◌, get_or, if◌then◌else◌, Bool-cases, Option-cases, inl, inr,
}
use kitty_proxy.Common.Outcome.{Outcome, ok, err, panic, ◌>>=◌, ◌>>◌, pure, raise, lift, continue}
use kitty_proxy.Text.Utf8.{from_utf8}
use kitty_proxy.Types.{
  KittyProxyError, ErrorKind, io, proxy, parse_error, error, broken_pipe, command_not_supported,
  addr_type_not_supported,
}
use kitty_proxy.Socks.Stream.{Stream, read_exact, write_all, shutdown}
use kitty_proxy.Socks.Wire.{sock_command_from, addr_type_from, AddrType, addr_to_host, send}
use kitty_proxy.Socks.Request.{
  OnStream, SocksReq, contains_byte, choose_method, greeting, or_close, request_head, dst_addr,
  from_stream,
}

-- A refusal, as opposed to a failed read or write, leaves the sending side closed.
abbrev pub Closes : {A : Type 0} → Outcome KittyProxyError A → Stream → Type 0
Closes (ok a) s = s.faults ≡ []
Closes (err (io k)) s = Unit {0}
Closes (err (proxy c)) s = s.is_shut ≡ true
Closes (err parse_error) s = s.is_shut ≡ true
Closes (err (error m)) s = s.is_shut ≡ true
Closes panic s = Unit {0}

abbrev Keeps : {A : Type 0} → OnStream A → Type 0
Keeps m = (s : Stream) → s.faults ≡ [] → Closes (m s).0 (m s).1

continue-Closes :
    {A B : Type 0} (r : Outcome KittyProxyError A) (f : A → OnStream B) (s : Stream)
    → Closes r s
    → ((a : A) → Keeps (f a))
    → Closes (continue r f s).0 (continue r f s).1
continue-Closes (ok a) f s h k = k a s h
continue-Closes (err (io e)) f s h k = tt
continue-Closes (err (proxy c)) f s h k = h
continue-Closes (err parse_error) f s h k = h
continue-Closes (err (error m)) f s h k = h
continue-Closes panic f s h k = tt

bind-Keeps :
    {A B : Type 0} (m : OnStream A) (f : A → OnStream B)
    → Keeps m
    → ((a : A) → Keeps (f a))
    → Keeps (m >>= f)
bind-Keeps m f hm hf s h = continue-Closes (m s).0 f (m s).1 (hm s h) hf

read_exact-Keeps : (n : ℕ) → Keeps (read_exact n)
unfolding read_exact
read_exact-Keeps n s h = ground arith

write_all-Keeps : (bytes : List ℕ) → Keeps (write_all bytes)
unfolding write_all
write_all-Keeps bytes s h = ground arith

shutdown-Keeps : Keeps shutdown
unfolding shutdown
shutdown-Keeps s h = rw h refl

pure-Keeps : {A : Type 0} (a : A) → Keeps (pure a)
pure-Keeps a s h = h

raise_closed :
    (A : Type 0) (e : KittyProxyError) (s : Stream) → s.is_shut ≡ true → Closes {A = A} (err e) s
raise_closed A (io k) s h = tt
raise_closed A (proxy c) s h = h
raise_closed A parse_error s h = h
raise_closed A (error m) s h = h

refuse-Keeps : (A : Type 0) (e : KittyProxyError) → Keeps {A = A} (shutdown >> raise e)
unfolding shutdown
refuse-Keeps A e s h = rw h (raise_closed A e _ refl)

choose_method-Keeps : (buf ms : List ℕ) → Keeps (choose_method buf ms)
unfolding choose_method
choose_method-Keeps buf ms = elim (Bool-cases (contains_byte ms 0)) [
  | inl offered ↦ rw offered (bind-Keeps _ _ (write_all-Keeps _) (λ _. pure-Keeps buf))
  | inr refused ↦ rw refused (bind-Keeps _ _ (write_all-Keeps _) (λ _. refuse-Keeps (List ℕ) _))
]

greeting-Keeps : Keeps greeting
unfolding greeting
greeting-Keeps = bind-Keeps _ _ (read_exact-Keeps 2) λ header.
    elim (Bool-cases (get_or header 0 0 == 5)) [
      | inl five ↦
          rw five (bind-Keeps _ _ (read_exact-Keeps _) (λ method. choose_method-Keeps _ method))
      | inr other ↦ rw other (refuse-Keeps (List ℕ) _)
    ]

or_close-Keeps : {A : Type 0} (o : Option A) (e : KittyProxyError) → Keeps (or_close o e)
unfolding or_close
or_close-Keeps (some a) e = pure-Keeps a
or_close-Keeps {A} none e = refuse-Keeps A e

check_version-Keeps : (b : Bool) → Keeps (if b then pure tt else shutdown)
check_version-Keeps true = pure-Keeps tt
check_version-Keeps false = shutdown-Keeps

parsed-Keeps :
    {A B : Type 0} (o : Option A) (e : KittyProxyError) (f : A → OnStream B)
    → ((a : A) → Keeps (f a))
    → Keeps (or_close o e >>= f)
parsed-Keeps o e f h = bind-Keeps (or_close o e) f (or_close-Keeps o e) h

request_head-Keeps : Keeps request_head
unfolding request_head
request_head-Keeps = bind-Keeps (read_exact 4) _ (read_exact-Keeps 4) λ packet.
    bind-Keeps (if get_or packet 0 0 == 5 then pure tt else shutdown) _
      (check_version-Keeps (get_or packet 0 0 == 5))
      λ _.
        parsed-Keeps (sock_command_from (get_or packet 1 0)) (proxy command_not_supported) _
          λ command.
            parsed-Keeps (addr_type_from (get_or packet 3 0)) (proxy addr_type_not_supported) _
              λ addr_type s h. h

dst_addr-Keeps : (t : AddrType) → Keeps (dst_addr t)
unfolding dst_addr
dst_addr-Keeps AddrType.v4 = bind-Keeps _ _ (read_exact-Keeps 4) λ addr s h. h
dst_addr-Keeps AddrType.v6 = bind-Keeps _ _ (read_exact-Keeps 16) λ addr s h. h
dst_addr-Keeps AddrType.domain =
    bind-Keeps _ _ (read_exact-Keeps 1) λ dlen. bind-Keeps _ _ (read_exact-Keeps _) λ name s h. h

-- `addr_to_host` returns or panics.
host-Keeps : (t : AddrType) (addr : List ℕ) → Keeps (lift (addr_to_host t addr))
unfolding addr_to_host
host-Keeps AddrType.v4 addr s h = elim (Bool-cases (ltb 3 (length addr))) [
  | inl e ↦ rw (e, addr_to_host) h
  | inr e ↦ rw (e, addr_to_host) tt
]
host-Keeps AddrType.v6 addr s h = elim (Bool-cases (ltb 15 (length addr))) [
  | inl e ↦ rw (e, addr_to_host) h
  | inr e ↦ rw (e, addr_to_host) tt
]
host-Keeps AddrType.domain addr s h = elim (Option-cases (from_utf8 addr)) [
  | inl e ↦ rw (e, addr_to_host) tt
  | inr (name, e) ↦ rw (e, addr_to_host) h
]

from_stream-Keeps : Keeps from_stream
unfolding from_stream
from_stream-Keeps = bind-Keeps _ _ greeting-Keeps λ greeted.
    bind-Keeps _ _ request_head-Keeps λ (packet, command, addr_type).
      bind-Keeps _ _ (dst_addr-Keeps addr_type) λ (raw, addr).
        bind-Keeps _ _ (read_exact-Keeps 2)
          λ port. bind-Keeps _ _ (host-Keeps addr_type addr) λ host s h. h

-- Over a stream without faults a refused request gets no answer: where `from_stream` fails with
-- another error than one of the network, the reply that the accept loop sends, whatever its code,
-- is a write on a closed stream, and adds nothing to the output.
pub refusal_unanswered :
    (s closed : Stream) (e : KittyProxyError) (reply : List ℕ)
    → s.faults ≡ []
    → from_stream s ≡ (err e, closed)
    → ((k : ErrorKind) → e ≢ io k)
    → send reply closed ≡ (err (io broken_pipe), closed)
unfolding send
refusal_unanswered s closed e reply h got refused = rw (shut e refused kept)
  where
    kept : Closes {A = SocksReq} (err e) closed
    kept =
        subst (λ (p : Outcome KittyProxyError SocksReq × Stream). Closes p.0 p.1) got
          (from_stream-Keeps s h)

    shut :
        (e : KittyProxyError)
        → ((k : ErrorKind) → e ≢ io k)
        → Closes {A = SocksReq} (err e) closed
        → closed.is_shut ≡ true
    shut (io k) n c = absurd (n k refl)
    shut (proxy r) n c = c
    shut parse_error n c = c
    shut (error m) n c = c
