-- ===== src/Socks/Request/Consumed.antt =====
-- What `from_stream` of src/socks_proxy.rs has read whenever it returns a request.
use mathlib.Core.List.{append_assoc}
use kitty_proxy.Common.{
  ℕ, zero, suc, List, [], ◌∷◌, ◌++◌, ◌≡◌, refl, sym, ap, ◌∙◌, Bool, true, false, Option, none, some,
  arith, length, get_or, leb, Bool-cases, inl, inr, take-append-drop, length-take_le, if◌then◌else◌,
  ◌==◌,
}
use kitty_proxy.Common.Outcome.{
  Outcome, ok, err, panic, ◌>>◌, Ensures, Ensures-ok, Ensures-err, Ensures-panic, bind-Ensures,
  Ensures-mono, pure, raise,
}
use kitty_proxy.Types.{KittyProxyError, proxy, command_not_supported, addr_type_not_supported}
use kitty_proxy.Socks.Stream.{Stream, read_exact, write_all, shutdown}
use kitty_proxy.Socks.Wire.{SockCommand, sock_command_from, AddrType, addr_type_from, HasSize}
use kitty_proxy.Socks.Request.{
  OnStream, contains_byte, greeting, choose_method, request_head, or_close, dst_addr,
}

pub read_exact-Ensures :
    (n : ℕ) (s : Stream)
    → Ensures (λ bytes t. (length bytes ≡ n) × (s.input ≡ bytes ++ t.input)) (read_exact n s)
unfolding read_exact
read_exact-Ensures n s = elim (Bool-cases (leb n (length s.input))) [
  | inl enough ↦
      rw enough
        (Ensures-ok _ _ (length-take_le n s.input (ground arith), sym (take-append-drop n s.input)))
  | inr short ↦ rw short (Ensures-err _ _)
]

-- Writing and closing read nothing.
Quiet : {A : Type 0} → OnStream A → Type 0
Quiet m = (s : Stream) → Ensures (λ _ t. s.input ≡ t.input) (m s)

quiet :
    {A : Type 0} (s : Stream) (p : Outcome KittyProxyError A × Stream)
    → s.input ≡ p.1.input
    → Ensures (λ _ t. s.input ≡ t.input) p
quiet s (ok a, t) h = Ensures-ok a t h
quiet s (err e, t) h = Ensures-err e t
quiet s (panic, t) h = Ensures-panic t

write_all-Quiet : (bytes : List ℕ) → Quiet (write_all bytes)
unfolding Quiet
write_all-Quiet bytes s = quiet s (write_all bytes s) (unfold write_all in ground arith)

shutdown-Quiet : Quiet shutdown
unfolding Quiet
shutdown-Quiet s = quiet s (shutdown s) (unfold shutdown in ground arith)

-- A refusal returns nothing.
refuse-Ensures :
    {A : Type 0} {P : A → Stream → Type 0} (e : KittyProxyError) (s : Stream)
    → Ensures P ((shutdown >> raise e) s)
unfolding Quiet
refuse-Ensures e s =
    bind-Ensures shutdown (λ _. raise e) s (shutdown-Quiet s) (λ _ t _. Ensures-err e t)

choose_method-Ensures :
    (buffer methods : List ℕ) (s : Stream)
    → Ensures
        (λ greeted t. (greeted ≡ buffer) × (s.input ≡ t.input) × (contains_byte methods 0 ≡ true))
        (choose_method buffer methods s)
unfolding choose_method Quiet
choose_method-Ensures buffer methods s = elim (Bool-cases (contains_byte methods 0)) [
  | inl offered ↦ rw offered (
      bind-Ensures (write_all (5 ∷ 0 ∷ [])) _ s (write_all-Quiet _ s)
        (λ _ t e. Ensures-ok buffer t (refl, e, refl)))
  | inr refused ↦ rw refused (
      bind-Ensures (write_all (5 ∷ 255 ∷ [])) _ s (write_all-Quiet _ s)
        (λ _ t e. refuse-Ensures _ t))
]

-- The first elements, one by one.
abbrev pub tabulate : ℕ → (ℕ → ℕ) → List ℕ
tabulate zero f = []
tabulate (suc n) f = f 0 ∷ tabulate n (λ i. f (suc i))

pub tabulate_lem :
    (n : ℕ) (bytes : List ℕ) → length bytes ≡ n → bytes ≡ tabulate n (λ i. get_or bytes i 0)
tabulate_lem zero [] h = refl
tabulate_lem zero (b ∷ bytes) h = absurd (omega arith)
tabulate_lem (suc n) [] h = absurd (omega arith)
tabulate_lem (suc n) (b ∷ bytes) h = ap (◌∷◌ b) (tabulate_lem n bytes (omega arith))

-- Two reads are one read of both.
pub joined : {i j : List ℕ} (a b k : List ℕ) → i ≡ a ++ j → j ≡ b ++ k → i ≡ (a ++ b) ++ k
joined a b k p q = p ∙ ap (◌++◌ a) q ∙ sym (append_assoc a b k)

pub greeting-Ensures :
    (s : Stream)
    → Ensures
        (λ greeted t.
          (methods : List ℕ) × (greeted ≡ 5 ∷ length methods ∷ methods)
          × (s.input ≡ greeted ++ t.input)
          × (contains_byte methods 0 ≡ true))
        (greeting s)
unfolding greeting
greeting-Ensures s =
    bind-Ensures (read_exact 2) _ s (read_exact-Ensures 2 s) λ header t (two, read).
      elim (Bool-cases (get_or header 0 0 == 5)) [
        | inr other ↦ rw other (refuse-Ensures _ t)
        | inl five ↦ rw five (
            bind-Ensures (read_exact (get_or header 1 0)) _ t
              (read_exact-Ensures (get_or header 1 0) t)
              λ methods u (size, more).
                let head : header ≡ 5 ∷ length methods ∷ [] =
                  ground (arith, tabulate_lem 2 header two, size, five) in
                Ensures-mono (choose_method-Ensures (header ++ methods) methods u)
                  λ greeted v (same, kept, offered). (
                    methods,
                    same ∙ ap (λ h. h ++ methods) head,
                    joined header methods v.input read (more ∙ ap (◌++◌ methods) kept)
                        ∙ ap (λ g. g ++ v.input) (sym same),
                    offered,
                  ))
      ]

or_close-Ensures :
    {A : Type 0} (o : Option A) (e : KittyProxyError) (s : Stream)
    → Ensures (λ a t. (o ≡ some a) × (s.input ≡ t.input)) (or_close o e s)
unfolding or_close
or_close-Ensures none e s = refuse-Ensures e s
or_close-Ensures (some a) e s = Ensures-ok a s (refl, refl)

-- The packet's head, whatever its version and reserved byte.
abbrev pub IsHead : List ℕ → SockCommand → AddrType → Type 0
IsHead packet c t =
    (version command reserved atyp : ℕ) × (packet ≡ version ∷ command ∷ reserved ∷ atyp ∷ [])
    × (sock_command_from command ≡ some c)
    × (addr_type_from atyp ≡ some t)

head_of :
    (bytes : List ℕ) (c : SockCommand) (t : AddrType)
    → length bytes ≡ 4
    → sock_command_from (get_or bytes 1 0) ≡ some c
    → addr_type_from (get_or bytes 3 0) ≡ some t
    → IsHead bytes c t
head_of bytes c t h p q = (
  get_or bytes 0 0,
  get_or bytes 1 0,
  get_or bytes 2 0,
  get_or bytes 3 0,
  tabulate_lem 4 bytes h,
  p,
  q,
)

check_version-Quiet : (b : Bool) → Quiet (if b then pure tt else shutdown)
unfolding Quiet
check_version-Quiet true s = Ensures-ok tt s refl
check_version-Quiet false s = shutdown-Quiet s

pub request_head-Ensures :
    (s : Stream)
    → Ensures
        (λ (packet, c, t) u. IsHead packet c t × (s.input ≡ packet ++ u.input))
        (request_head s)
unfolding request_head Quiet
request_head-Ensures s =
    bind-Ensures (read_exact 4) _ s (read_exact-Ensures 4 s) λ packet t (four, read).
      bind-Ensures (if get_or packet 0 0 == 5 then pure tt else shutdown) _ t
        (check_version-Quiet (get_or packet 0 0 == 5) t)
        λ _ u checked.
          bind-Ensures
            (or_close (sock_command_from (get_or packet 1 0)) (proxy command_not_supported)) _ u
            (or_close-Ensures (sock_command_from (get_or packet 1 0)) _ u)
            λ c v (command, kept).
              bind-Ensures
                (or_close (addr_type_from (get_or packet 3 0)) (proxy addr_type_not_supported)) _ v
                (or_close-Ensures (addr_type_from (get_or packet 3 0)) _ v)
                λ a w (atyp, same). Ensures-ok _ w (
                  head_of packet c a four command atyp,
                  read ∙ ap (◌++◌ packet) (checked ∙ kept ∙ same),
                )

-- The address as it was sent, and as it is handed to `addr_to_host`.
abbrev pub sent_address : AddrType → List ℕ → List ℕ
sent_address AddrType.domain addr = length addr ∷ addr
sent_address AddrType.v4 addr = addr
sent_address AddrType.v6 addr = addr

pub dst_addr-Ensures :
    (k : AddrType) (s : Stream)
    → Ensures
        (λ (raw, addr) t. (raw ≡ sent_address k addr) × (s.input ≡ raw ++ t.input) × HasSize k addr)
        (dst_addr k s)
unfolding dst_addr
dst_addr-Ensures AddrType.v4 s =
    bind-Ensures (read_exact 4) _ s (read_exact-Ensures 4 s)
      λ addr t (four, read). Ensures-ok _ t (refl, read, four)
dst_addr-Ensures AddrType.v6 s =
    bind-Ensures (read_exact 16) _ s (read_exact-Ensures 16 s)
      λ addr t (n, read). Ensures-ok _ t (refl, read, n)
dst_addr-Ensures AddrType.domain s =
    bind-Ensures (read_exact 1) _ s (read_exact-Ensures 1 s) λ dlen t (one, read).
      bind-Ensures (read_exact (get_or dlen 0 0)) _ t (read_exact-Ensures (get_or dlen 0 0) t)
        λ name u (n, more). Ensures-ok _ u (
          ap (λ h. h ++ name) (tabulate_lem 1 dlen one ∙ ap (λ k. k ∷ []) (sym n)),
          joined dlen name u.input read more,
          tt,
        )
