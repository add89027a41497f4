-- ===== src/Http/Server/Targets.antt =====
-- Where the tasks of src/http_proxy.rs connect to.
pub mod Segments
pub mod Steps
use kitty_proxy.Common.{
  List, [], ◌∷◌, ◌++◌, ◌≡◌, ◌≢◌, refl, subst, sym, Bool, true, false, Option, none, some, All,
  All-append, All-left, All-right, All-mono, if◌then◌else◌, Bool-cases, Option-cases, inl, inr,
}
use kitty_proxy.Common.Outcome.{Outcome, ok, err, panic, continue, ◌>>=◌, lift, pure, unwrap}
use kitty_proxy.Text.{codes, text_eq}
use kitty_proxy.Types.{Address, address_of_node, host_of_address, NodeInfo}
use kitty_proxy.Traffic.Rule.{TrafficStreamRule}
use kitty_proxy.Balancer.{
  ConnectionStatsBanlancer, incre_count_by_node_info, decre_count_by_node_info,
}
use kitty_proxy.Balancer.Counts.{listed}
use kitty_proxy.Balancer.Serving.{HasWeight}
use kitty_proxy.Socks.Stream.{Stream}
use kitty_proxy.Http.Crates.{Hyper, Request}
use kitty_proxy.Http.{
  HttpEnv, HttpState, OnHttp, Tunnel, request_host, incre, decre, spawn, set_balancer, chosen_host,
}
use kitty_proxy.Http.Server.{
  Task, arrived, chosen, exchanging, answered, failed, panicked, dropped, counted, settle, resume,
  pick, open_target, exchange_with, segment, receive, Server, Step, accepted, resumed, client_gone,
  Reach,
}
use kitty_proxy.Http.Server.Invariant.{Reach-chosen, listed_known}

module _ (x : Hyper) (ns : List NodeInfo) where
  -- Where a connection may go: directly, to an address that is allowed so, or to the node that it is
  -- counted for, one of the list.
  abbrev pub Aims : (Address → Type 0) → Bool → Option NodeInfo → Address → Type 0
  Aims Allowed true n a = Allowed a
  Aims Allowed false none a = ⊥
  Aims Allowed false (some n) a = (a ≡ address_of_node n) × (listed ns n ≡ true)

  -- `Dials` are the connections that the network gave, and for which addresses.
  abbrev pub TaskAims : (Address → Type 0) → (Address → Stream → Type 0) → Task x → Type 0
  TaskAims Allowed Dials (chosen target is_direct node_info req) =
      Aims Allowed is_direct node_info target
  TaskAims Allowed Dials (exchanging stream is_direct node_info req) =
      (target : Address) × Dials target stream × Aims Allowed is_direct node_info target
  TaskAims Allowed Dials _ = Unit

  abbrev pub TunnelAims : (Address → Type 0) → Tunnel x → Type 0
  TunnelAims Allowed t = (n : Option NodeInfo) × Aims Allowed t.is_direct n t.target_host

  pub record IsRouted (Allowed : Address → Type 0) (Dials : Address → Stream → Type 0)
      (s : Server x) : Type 0 where
    pub tasks : All (TaskAims Allowed Dials) s.tasks
    pub tunnels : All (TunnelAims Allowed) s.shared.tunnels

  module _ {P Q : Address → Type 0} {C D : Address → Stream → Type 0}
      (wider : (a : Address) → P a → Q a) (more : (a : Address) (s : Stream) → C a s → D a s) where
    Aims-wider :
        (is_direct : Bool) (n : Option NodeInfo) (a : Address)
        → Aims P is_direct n a
        → Aims Q is_direct n a
    Aims-wider true n a h = wider a h
    Aims-wider false none a h = h
    Aims-wider false (some n) a h = h

    TaskAims-wider : (t : Task x) → TaskAims P C t → TaskAims Q D t
    TaskAims-wider (arrived req) h = tt
    TaskAims-wider (chosen target is_direct node_info req) h =
        Aims-wider is_direct node_info target h
    TaskAims-wider (exchanging stream is_direct node_info req) (a, dial, h) =
        (a, more a stream dial, Aims-wider is_direct node_info a h)
    TaskAims-wider (answered r) h = tt
    TaskAims-wider (failed e n) h = tt
    TaskAims-wider (panicked n) h = tt
    TaskAims-wider (dropped n) h = tt

    pub IsRouted-wider : (s : Server x) → IsRouted P C s → IsRouted Q D s
    IsRouted-wider s r = record {
      tasks = All-mono s.tasks TaskAims-wider r.tasks;
      tunnels =
          All-mono s.shared.tunnels (λ t (n, h). (n, Aims-wider t.is_direct n t.target_host h))
            r.tunnels;
    }
