-- ===== src/Socks/Calm.antt =====
-- The reads and writes of src/socks_proxy.rs never panic.
use kitty_proxy.Common.{
  ℕ, List, [], ◌∷◌, ◌≢◌, refl, leb, length, Bool, true, false, Option, none, some, Bool-cases, inl,
  inr, if◌then◌else◌,
}
use kitty_proxy.Common.Outcome.{Outcome, ok, err, panic, continue}
use kitty_proxy.Types.{KittyProxyError, io, broken_pipe}
use kitty_proxy.Balancer.{map_ok}
use kitty_proxy.Socks.Stream.{Stream, read_exact, write_all, write_with, shutdown, shutdown_with}
use kitty_proxy.Socks.Wire.{send}

-- No panic.
abbrev pub Calm : {E A : Type 0} → Outcome E A → Type 0
Calm r = r ≢ panic

pub continue-Calm :
    {S A B : Type 0} (r : Outcome KittyProxyError A) (f : A → S → Outcome KittyProxyError B × S)
    (s : S)
    → Calm r
    → ((a : A) (t : S) → Calm (f a t).0)
    → Calm (continue r f s).0
continue-Calm (ok a) f s h k = k a s
continue-Calm (err e) f s h k = λ p. cc
continue-Calm panic f s h k = absurd (h refl)

pub map_ok-Calm :
    {A B : Type 0} (g : A → B) (r : Outcome KittyProxyError A) → Calm r → Calm (map_ok g r)
map_ok-Calm g (ok a) h = λ p. cc
map_ok-Calm g (err e) h = λ p. cc
map_ok-Calm g panic h = absurd (h refl)

write_with-Calm :
    (fs : List (Option ℕ)) (bytes : List ℕ) (s : Stream) → Calm (write_with fs bytes s).0
unfolding write_with
write_with-Calm [] bytes s = λ p. cc
write_with-Calm (none ∷ fs) bytes s = λ p. cc
write_with-Calm (some n ∷ fs) bytes s = λ p. cc

pub write_all-Calm : (bytes : List ℕ) (s : Stream) → Calm (write_all bytes s).0
unfolding write_all
write_all-Calm bytes s = go s.is_shut
  where
    go : (b : Bool) → Calm (if b then (err (io broken_pipe), s) else write_with s.faults bytes s).0
    go true = λ p. cc
    go false = write_with-Calm s.faults bytes s

pub send-Calm : (bytes : List ℕ) (s : Stream) → Calm (send bytes s).0
unfolding send
send-Calm bytes s = write_all-Calm bytes s

shutdown_with-Calm : (fs : List (Option ℕ)) (s : Stream) → Calm (shutdown_with fs s).0
unfolding shutdown_with
shutdown_with-Calm [] s = λ p. cc
shutdown_with-Calm (none ∷ fs) s = λ p. cc
shutdown_with-Calm (some n ∷ fs) s = λ p. cc

pub shutdown-Calm : (s : Stream) → Calm (shutdown s).0
unfolding shutdown
shutdown-Calm s = shutdown_with-Calm s.faults s

pub read_exact-Calm : (n : ℕ) (s : Stream) → Calm (read_exact n s).0
unfolding read_exact
read_exact-Calm n s = elim (Bool-cases (leb n (length s.input))) [
  | inl e ↦ rw (e, read_exact) (λ p. cc)
  | inr e ↦ rw (e, read_exact) (λ p. cc)
]
