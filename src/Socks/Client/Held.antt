-- ===== src/Socks/Client/Held.antt =====
-- The connections that are counted while `handle_client` in src/socks_proxy.rs goes on.
use kitty_proxy.Common.{◌+◌, ◌^◌, ◌<◌, List, [], ◌∷◌, ◌≡◌, refl, ◌∙◌, some, length}
use kitty_proxy.Common.Outcome.{ok}
use kitty_proxy.Types.{NodeInfo, KittyProxyError}
use kitty_proxy.Balancer.{ConnectionStatsBanlancer}
use kitty_proxy.Balancer.Sharing.{Run, then_step, opened, start, Run-counts_one, Run-gives_back}
use kitty_proxy.Socks.Client.{Env, Session, put_balancer, incre, decre}

module _ (env : Env) (ns : List NodeInfo) where
  -- The balancer of a run in which these connections are open.
  unfoldable pub Open : List NodeInfo → Session → Type 0
  Open live s =
      (b : ConnectionStatsBanlancer) × (s.balancer ≡ some b)
      × Run KittyProxyError env.checks (start ns) (record { balancer = b; live = live })

  pub Open-kept :
      (live : List NodeInfo) (s t : Session) → t.balancer ≡ s.balancer → Open live s → Open live t
  unfolding Open
  Open-kept live s t e (b, h, run) = (b, e ∙ h, run)

  module _ (live : List NodeInfo) (n : NodeInfo) (s : Session) where
    -- The count goes up, and one connection more is open.
    pub incre-Open :
        length live + 1 < 2 ^ 64
        → Open live s
        → (t : Session) × (incre env (some n) s ≡ (ok tt, t)) × Open (n ∷ live) t
    unfolding incre Open put_balancer
    incre-Open room (b, h, run) =
        let (c, e) =
          Run-counts_one KittyProxyError ns env.checks (record { balancer = b; live = live }) n run
            room in
        (
          record s { balancer = some c },
          rw (h, e) refl,
          (c, refl, then_step run (opened [] live n room refl e refl)),
        )

    -- The count goes down, and the connection is closed.
    pub decre-Open :
        Open (n ∷ live) s → (t : Session) × (decre env (some n) s ≡ (ok tt, t)) × Open live t
    unfolding decre Open put_balancer
    decre-Open (b, h, run) =
        let (c, e, left) =
          Run-gives_back KittyProxyError ns env.checks (record { balancer = b; live = n ∷ live }) []
            live n run refl in
        (record s { balancer = some c }, rw (h, e) refl, (c, refl, left))
