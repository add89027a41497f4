-- ===== src/Socks/Request/Panics.antt =====
-- The only requests that make `from_stream` of src/socks_proxy.rs panic.
use kitty_proxy.Common.{
  ℕ, List, [], ◌∷◌, ◌++◌, ◌≡◌, refl, ◌∙◌, ap, subst, Bool, true, false, Option, none, some, length,
  get_or, Bool-cases, Option-cases, inl, inr, if◌then◌else◌, ◌==◌,
}
use kitty_proxy.Common.Outcome.{
  Outcome, ok, err, panic, Ensures, ensured, continue, ◌>>=◌, ◌>>◌, lift, pure, raise,
}
use kitty_proxy.Text.Utf8.{from_utf8}
use kitty_proxy.Types.{KittyProxyError, Host, proxy, command_not_supported, addr_type_not_supported}
use kitty_proxy.Socks.Stream.{Stream, read_exact, write_all, shutdown}
use kitty_proxy.Socks.Wire.{
  SockCommand, AddrType, addr_to_host, HasSize, sock_command_from, addr_type_from,
}
use kitty_proxy.Socks.Calm.{Calm, continue-Calm, read_exact-Calm, write_all-Calm, shutdown-Calm}
use kitty_proxy.Socks.Request.{
  OnStream, contains_byte, choose_method, greeting, request_head, or_close, dst_addr, from_stream,
}
use kitty_proxy.Socks.Request.Consumed.{
  joined, read_exact-Ensures, greeting-Ensures, IsHead, request_head-Ensures, sent_address,
  dst_addr-Ensures,
}

bind-Calm :
    {A B : Type 0} (m : OnStream A) (f : A → OnStream B) (s : Stream)
    → Calm (m s).0
    → ((a : A) (t : Stream) → Calm (f a t).0)
    → Calm ((m >>= f) s).0
bind-Calm m f s h k = continue-Calm (m s).0 f (m s).1 h k

closed-Calm :
    {A : Type 0} (e : KittyProxyError) (s : Stream) → Calm ((do shutdown; raise {A = A} e) s).0
closed-Calm e s = bind-Calm shutdown _ s (shutdown-Calm s) (λ _ t p. cc)

choose_method-Calm :
    (buffer methods : List ℕ) (s : Stream) → Calm (choose_method buffer methods s).0
unfolding choose_method
choose_method-Calm buffer methods s = elim (Bool-cases (contains_byte methods 0)) [
  | inl e ↦ rw e (bind-Calm (write_all (5 ∷ 0 ∷ [])) _ s (write_all-Calm _ s) (λ _ t p. cc))
  | inr e ↦
      rw e (bind-Calm (write_all (5 ∷ 255 ∷ [])) _ s (write_all-Calm _ s) (λ _ t. closed-Calm _ t))
]

greeting-Calm : (s : Stream) → Calm (greeting s).0
unfolding greeting
greeting-Calm s = bind-Calm (read_exact 2) _ s (read_exact-Calm 2 s) λ header t.
    elim (Bool-cases (get_or header 0 0 == 5)) [
      | inl e ↦ rw e (
          bind-Calm (read_exact (get_or header 1 0)) _ t (read_exact-Calm _ t)
            λ methods u. choose_method-Calm (header ++ methods) methods u)
      | inr e ↦ rw e (closed-Calm _ t)
    ]

or_close-Calm :
    {A : Type 0} (o : Option A) (e : KittyProxyError) (s : Stream) → Calm (or_close o e s).0
unfolding or_close
or_close-Calm none e s = closed-Calm e s
or_close-Calm (some a) e s = λ p. cc

version-Calm : (b : Bool) (s : Stream) → Calm ((if b then pure tt else shutdown) s).0
version-Calm true s = λ p. cc
version-Calm false s = shutdown-Calm s

request_head-Calm : (s : Stream) → Calm (request_head s).0
unfolding request_head
request_head-Calm s = bind-Calm (read_exact 4) _ s (read_exact-Calm 4 s) λ packet t.
    bind-Calm (if get_or packet 0 0 == 5 then pure tt else shutdown) _ t (version-Calm _ t) λ _ u.
      bind-Calm (or_close (sock_command_from (get_or packet 1 0)) (proxy command_not_supported)) _ u
        (or_close-Calm _ _ u)
        λ c v.
          bind-Calm (or_close (addr_type_from (get_or packet 3 0)) (proxy addr_type_not_supported))
            _ v (or_close-Calm _ _ v) (λ k w p. cc)

dst_addr-Calm : (k : AddrType) (s : Stream) → Calm (dst_addr k s).0
unfolding dst_addr
dst_addr-Calm AddrType.v4 s = bind-Calm (read_exact 4) _ s (read_exact-Calm 4 s) (λ a t p. cc)
dst_addr-Calm AddrType.v6 s = bind-Calm (read_exact 16) _ s (read_exact-Calm 16 s) (λ a t p. cc)
dst_addr-Calm AddrType.domain s =
    bind-Calm (read_exact 1) _ s (read_exact-Calm 1 s)
      λ dlen t. bind-Calm (read_exact (get_or dlen 0 0)) _ t (read_exact-Calm _ t) (λ a u p. cc)

-- What a panic proves.
record Blames {A : Type 0} (Q : Type 0) (p : Outcome KittyProxyError A × Stream) : Type 0 where
  blamed : p.0 ≡ panic → Q

Calm-Blames :
    {A : Type 0} {Q : Type 0} (p : Outcome KittyProxyError A × Stream) → Calm p.0 → Blames Q p
Calm-Blames p h = record { blamed = λ e. absurd (h e) }

bind-Blames :
    {A B : Type 0} {Q : Type 0} {K : A → Stream → Type 0} (m : OnStream A) (f : A → OnStream B)
    (s : Stream)
    → Calm (m s).0
    → Ensures K (m s)
    → ((a : A) (t : Stream) → K a t → Blames Q (f a t))
    → Blames Q ((m >>= f) s)
bind-Blames {A} {B} {Q} {K} m f s calm h k = go (m s).0 (m s).1 refl calm
  where
    go :
        (r : Outcome KittyProxyError A) (t : Stream)
        → m s ≡ (r, t)
        → Calm r
        → Blames Q (continue r f t)
    go (ok a) t e c = k a t (ensured h e)
    go (err u) t e c = Calm-Blames (err u, t) (λ p. cc)
    go panic t e c = absurd (c refl)

-- The bytes of a request for a domain whose name is not UTF-8, after a greeting that is accepted.
pub record IsMisnamed (input : List ℕ) : Type 0 where
  pub methods : List ℕ
  pub packet : List ℕ
  pub command : SockCommand
  pub name : List ℕ
  pub rest : List ℕ
  pub sent : input ≡ (((5 ∷ length methods ∷ methods) ++ packet) ++ (length name ∷ name)) ++ rest
  pub offered : contains_byte methods 0 ≡ true
  pub head : IsHead packet command AddrType.domain
  pub not_text : from_utf8 name ≡ none

host_panics :
    (k : AddrType) (addr : List ℕ)
    → HasSize k addr
    → addr_to_host {E = KittyProxyError} k addr ≡ panic
    → (k ≡ AddrType.domain) × (from_utf8 addr ≡ none)
unfolding addr_to_host
host_panics AddrType.v4 addr four e = absurd (returns (rw (four, addr_to_host) at e))
  where
    returns : {h : Host} → ◌≡◌ {A = Outcome KittyProxyError Host} (ok h) panic → ⊥
    returns e = cc
host_panics AddrType.v6 addr sixteen e = absurd (returns (rw (sixteen, addr_to_host) at e))
  where
    returns : {h : Host} → ◌≡◌ {A = Outcome KittyProxyError Host} (ok h) panic → ⊥
    returns e = cc
host_panics AddrType.domain addr any e = elim (Option-cases (from_utf8 addr)) [
  | inl bad ↦ (refl, bad)
  | inr (name, good) ↦ clash name (rw (good, addr_to_host) at e)
]
  where
    clash :
        (name : List ℕ)
        → ◌≡◌ {A = Outcome KittyProxyError Host} (ok (Host.domain name)) panic
        → (AddrType.domain ≡ AddrType.domain) × (from_utf8 addr ≡ none)
    clash name e = cc

module _ (s s1 s2 s3 : Stream) (methods packet raw addr : List ℕ) (c : SockCommand) (k : AddrType)
    (r1 : s.input ≡ (5 ∷ length methods ∷ methods) ++ s1.input) (r2 : s1.input ≡ packet ++ s2.input)
    (r3 : s2.input ≡ raw ++ s3.input) where
  misnamed :
      contains_byte methods 0 ≡ true
      → IsHead packet c k
      → raw ≡ sent_address k addr
      → HasSize k addr
      → addr_to_host {E = KittyProxyError} k addr ≡ panic
      → IsMisnamed s.input
  misnamed offered head sent size e =
      let (is_domain, bad) = host_panics k addr size e in
      record {
        methods = methods;
        packet = packet;
        command = c;
        name = addr;
        rest = s3.input;
        sent =
            joined ((5 ∷ length methods ∷ methods) ++ packet) raw s3.input
              (joined (5 ∷ length methods ∷ methods) packet s2.input r1 r2) r3
            ∙ ap (λ a. (((5 ∷ length methods ∷ methods) ++ packet) ++ a) ++ s3.input)
                (sent ∙ ap (λ t. sent_address t addr) is_domain);
        offered = offered;
        head = subst (IsHead packet c) is_domain head;
        not_text = bad;
      }

lift-Blames :
    {A B : Type 0} {Q : Type 0} (r : Outcome KittyProxyError A) (f : A → OnStream B) (s : Stream)
    → (r ≡ panic → Q)
    → ((a : A) (t : Stream) → Calm (f a t).0)
    → Blames Q ((lift r >>= f) s)
lift-Blames (ok a) f s h k = Calm-Blames (f a s) (k a s)
lift-Blames (err e) f s h k = Calm-Blames (err e, s) (λ p. cc)
lift-Blames panic f s h k = record { blamed = λ e. h refl }

-- If `from_stream` panics, the client has sent a request for a domain whose name is not UTF-8: no
-- other input, no early end and no failure of the network makes it panic.
pub from_stream-IsMisnamed : (s : Stream) → (from_stream s).0 ≡ panic → IsMisnamed s.input
unfolding from_stream
from_stream-IsMisnamed s e = parsed.blamed e
  where
    parsed : Blames (IsMisnamed s.input) (from_stream s)
    parsed =
        bind-Blames greeting _ s (greeting-Calm s) (greeting-Ensures s)
          λ greeted s1 (methods, is_greeting, r1, offered).
            bind-Blames request_head _ s1 (request_head-Calm s1) (request_head-Ensures s1)
              λ (packet, c, k) s2 (head, r2).
                bind-Blames (dst_addr k) _ s2 (dst_addr-Calm k s2) (dst_addr-Ensures k s2)
                  λ (raw, addr) s3 (sent, r3, size).
                    bind-Blames (read_exact 2) _ s3 (read_exact-Calm 2 s3) (read_exact-Ensures 2 s3)
                      λ port s4 (two, r4).
                        lift-Blames (addr_to_host k addr) _ s4
                          (misnamed s s1 s2 s3 methods packet raw addr c k
                            (r1 ∙ ap (λ g. g ++ s1.input) is_greeting) r2 r3 offered head sent size)
                          (λ host t p. cc)
