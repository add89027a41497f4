-- ===== src/Socks/Client/Kept.antt =====
-- Code of `handle_client` in src/socks_proxy.rs that does not touch the balancer.
use kitty_proxy.Common.{◌≡◌, ◌∙◌}
use kitty_proxy.Common.Outcome.{Outcome, ok, err, panic, continue, ◌>>=◌}
use kitty_proxy.Types.{KittyProxyError}
use kitty_proxy.Socks.Client.{Session, OnSession}

-- The balancer is left alone.
unfoldable pub Kept : {A : Type 0} → Session → Outcome KittyProxyError A × Session → Type 0
Kept s p = p.1.balancer ≡ s.balancer

pub bind-Kept :
    {A B : Type 0} (m : OnSession A) (f : A → OnSession B) (s : Session)
    → Kept s (m s)
    → ((a : A) (t : Session) → Kept t (f a t))
    → Kept s ((m >>= f) s)
unfolding Kept
bind-Kept {A} {B} m f s h k = go (m s).0 (m s).1 h
  where
    go :
        (r : Outcome KittyProxyError A) (t : Session)
        → t.balancer ≡ s.balancer
        → Kept s (continue r f t)
    go (ok a) t h = k a t ∙ h
    go (err e) t h = h
    go panic t h = h
