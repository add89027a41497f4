-- ===== src/Http/Tunnels/Upgrade.antt =====
-- The task that a CONNECT request of src/http_proxy.rs starts: it waits for the upgrade of the client's
-- connection and runs the tunnel.
use kitty_proxy.Common.{◌≡◌, ◌≢◌, false, Option, none, some}
use kitty_proxy.Common.Outcome.{Outcome, ok, err, panic}
use kitty_proxy.Types.{ErrorKind}
use kitty_proxy.Socks.Stream.{Stream, write_all}
use kitty_proxy.Http.Crates.{Hyper}
use kitty_proxy.Http.{Tunnel}
use kitty_proxy.Http.Tunnels.{TunnelEnv, tunnel, connect_request}

module _ (x : Hyper) (env : TunnelEnv x) where
  -- An error of the tunnel is logged.
  logged : Outcome ErrorKind (Unit {0}) → Outcome (Unit {0}) (Unit {0})
  logged (ok _) = ok tt
  logged (err e) = ok tt
  logged panic = panic

  -- `hyper::upgrade::on` yields the client's connection, or an error, which is logged.
  pub run_tunnel : Option Stream → Tunnel x → Outcome (Unit {0}) (Unit {0})
  unfolding logged
  run_tunnel none t = ok tt
  run_tunnel (some upgraded) t = logged (tunnel x env upgraded t).0

  -- The target is not reached; or it is a node that does not take the CONNECT request, or that is read
  -- in vain for its answer.
  pub data IsLost (t : Tunnel x) : Type 0 where
    unreached : env.connect t.target_host ≡ none → IsLost t
    unasked :
        (target : Stream)
        → env.connect t.target_host ≡ some target
        → t.is_direct ≡ false
        → (write_all (connect_request x env t.req) target).0 ≢ ok tt
        → IsLost t
    unanswered :
        (target : Stream)
        → env.connect t.target_host ≡ some target
        → t.is_direct ≡ false
        → (write_all (connect_request x env t.req) target).0 ≡ ok tt
        → env.read (write_all (connect_request x env t.req) target).1 ≡ none
        → IsLost t
