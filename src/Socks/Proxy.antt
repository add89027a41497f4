-- ===== src/Socks/Proxy.antt =====
-- `SocksProxy` of src/socks_proxy.rs: its state, `new`, and `serve` up to the end of the task that it
-- spawns.
pub mod Tests
use kitty_proxy.Common.{
  ℕ, List, [], ◌∷◌, ◌++◌, ◌≡◌, refl, ap, subst, Bool, true, false, Option, none, some,
  if◌then◌else◌, Bool-cases, inl, inr, arith,
}
use kitty_proxy.Common.Outcome.{Outcome, ok, panic}
use kitty_proxy.Text.{Text}
use kitty_proxy.Types.{NodeInfo, KittyProxyError}
use kitty_proxy.Balancer.{ConnectionStatsBanlancer, from_vec}
use kitty_proxy.Socks.Stream.{Stream}
use kitty_proxy.Socks.Client.{Arrival}
use kitty_proxy.Socks.Client

pub record SocksProxy : Type 0 where
  pub ip : Text
  pub port : ℕ
  pub timeout : Option ℕ
  pub balancer : Option ConnectionStatsBanlancer
  pub is_serve : Bool

unfoldable pub new : Text → ℕ → Option ℕ → SocksProxy
new ip port timeout = record {
  ip = ip;
  port = port;
  timeout = timeout;
  balancer = none;
  is_serve = false;
}

abbrev pub is_serving : SocksProxy → Bool
is_serving self = self.is_serve

-- What the two branches of `select!` wait for: the result of `accept`, or the stop channel, on which `changed`
-- returns that a value was sent, or that the sender is gone.
pub data Event : Type 1 where
  accepted : Arrival → Event
  changed : Bool → Event

-- The clients before the end of the loop: either result of `changed` ends it.
clients_of : List Event → List Arrival
clients_of [] = []
clients_of (accepted arrival ∷ events) = arrival ∷ clients_of events
clients_of (changed is_ok ∷ events) = []

returned :
    (p served : SocksProxy) (left streams : List Stream)
    → ◌≡◌ {A = Outcome KittyProxyError (SocksProxy × List Stream)}
        (ok (p, left))
        (ok (served, streams))
    → p ≡ served
returned p served left streams e = ground (arith, e)

module _ (bind : Text → ℕ → Bool) where
  -- The proxy after the task has ended, and the connections as they are left. An address that
  -- cannot be bound panics. The stop comes between two clients.
  unfoldable pub serve :
      SocksProxy → List NodeInfo → List Event → Outcome KittyProxyError (SocksProxy × List Stream)
  unfolding clients_of
  serve self vpn_node_infos events =
      if bind self.ip self.port
      then (let (streams, balancer) =
            Client.serve self.timeout (clients_of events) (some (from_vec vpn_node_infos)) in
          ok (record self { balancer = balancer; is_serve = true }, streams))
      else panic

  clients_of-stopped :
      (before after : List Event) (is_ok : Bool)
      → clients_of (before ++ changed is_ok ∷ after) ≡ clients_of before
  unfolding clients_of
  clients_of-stopped [] after is_ok = refl
  clients_of-stopped (accepted arrival ∷ before) after is_ok =
      ap (◌∷◌ arrival) (clients_of-stopped before after is_ok)
  clients_of-stopped (changed sent ∷ before) after is_ok = refl

  -- A stop ends the service: the clients that connect after it are not served, and change nothing;
  -- and it is a stop as well when no value was sent but the sender is gone.
  pub serve_stopped :
      (self : SocksProxy) (ns : List NodeInfo) (before after : List Event) (is_ok : Bool)
      → serve self ns (before ++ changed is_ok ∷ after) ≡ serve self ns before
  unfolding serve
  serve_stopped self ns before after is_ok = rw (clients_of-stopped before after is_ok)

  -- A proxy that has served is as good as one that has not: the next `serve` gives the result, with
  -- the counts of the balancer, that it would have given before.
  pub serve_again :
      (self served : SocksProxy) (streams : List Stream) (ns next : List NodeInfo)
      (events later : List Event)
      → serve self ns events ≡ ok (served, streams)
      → serve served next later ≡ serve self next later
  unfolding serve
  serve_again self served streams ns next events later h =
      elim (Bool-cases (bind self.ip self.port)) [
        | inl b ↦
            subst (λ p. serve p next later ≡ serve self next later)
              (returned _ served _ streams (rw (b, serve) at h)) refl
        | inr b ↦ ground (arith, b, h)
      ]
