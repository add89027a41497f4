-- ===== src/Http/Server/Targets/Steps.antt =====
-- Where the tasks of src/http_proxy.rs connect to after a step of any of them.
use kitty_proxy.Common.{
  some, List, [], ◌∷◌, ◌++◌, ◌≡◌, ◌≢◌, subst, sym, Bool, All, All-append, All-left, All-right,
}
use kitty_proxy.Types.{Address, host_of_address, NodeInfo}
use kitty_proxy.Traffic.Rule.{TrafficStreamRule}
use kitty_proxy.Balancer.Serving.{HasWeight}
use kitty_proxy.Socks.Stream.{Stream}
use kitty_proxy.Http.Crates.{Hyper}
use kitty_proxy.Http.Server.{
  Task, dropped, counted, resume, Server, Step, accepted, resumed, client_gone, Reach,
}
use kitty_proxy.Http.Server.Targets.{TaskAims, TunnelAims, IsRouted}
use kitty_proxy.Http.Server.Targets.Segments.{Good, resume-Good}

module _ (x : Hyper) (ns : List NodeInfo) where
  module _ (Allowed : Address → Type 0) (Dials : Address → Stream → Type 0) where
    exchanged_for :
        (before after ts : List (Task x)) (t u : Task x)
        → ts ≡ before ++ t ∷ after
        → All (TaskAims x ns Allowed Dials) ts
        → (TaskAims x ns Allowed Dials t → TaskAims x ns Allowed Dials u)
        → All (TaskAims x ns Allowed Dials) (before ++ u ∷ after)
    exchanged_for before after ts t u e h f =
        let all = subst (All (TaskAims x ns Allowed Dials)) e h in
        let rest = All-right (TaskAims x ns Allowed Dials) before (t ∷ after) all in
        All-append (TaskAims x ns Allowed Dials) before (u ∷ after)
          (All-left (TaskAims x ns Allowed Dials) before (t ∷ after) all) (f rest.0, rest.1)

    at_place :
        (before after ts : List (Task x)) (t : Task x)
        → ts ≡ before ++ t ∷ after
        → All (TaskAims x ns Allowed Dials) ts
        → TaskAims x ns Allowed Dials t
    at_place before after ts t e h =
        (All-right (TaskAims x ns Allowed Dials) before (t ∷ after)
          (subst (All (TaskAims x ns Allowed Dials)) e h)).0

    module _ {checks : Bool} where
      -- What the rules call direct when a task goes on is allowed, and the connections that the network
      -- gives it are in `Dials`.
      abbrev pub Obeys : {s t : Server x} → Step x checks s t → Type 0
      Obeys (accepted req o e) = Unit
      Obeys (resumed env before after task same room e e' o) =
          ((a : Address)
            → env.traffic_stream (host_of_address a) ≡ TrafficStreamRule.direct
            → Allowed a)
          × ((a : Address) (stream : Stream) → env.connect a ≡ some stream → Dials a stream)
      Obeys (client_gone before after task e e' o) = Unit

      pub Step-IsRouted :
          {s t : Server x}
          → ns ≢ []
          → All HasWeight ns
          → Reach x checks ns s
          → (step : Step x checks s t) → Obeys step
          → IsRouted x ns Allowed Dials s
          → IsRouted x ns Allowed Dials t
      Step-IsRouted some_node weights reach (accepted req o e) obeys r = record {
        tasks = subst (All (TaskAims x ns Allowed Dials)) (sym e) (tt, r.tasks);
        tunnels = subst (λ h. All (TunnelAims x ns Allowed) h.tunnels) (sym o) r.tunnels;
      }
      Step-IsRouted {s} some_node weights reach (resumed env before after task same room e e' o)
            obeys r =
          let good : All (TunnelAims x ns Allowed) (resume x env task s.shared).1.tunnels
              × TaskAims x ns Allowed Dials (resume x env task s.shared).0 =
            unfold Good in
            resume-Good x ns Allowed Dials checks some_node weights env obeys.0 obeys.1 s reach task
              r.tunnels (at_place before after s.tasks task e r.tasks) in
          record {
            tasks = subst (All (TaskAims x ns Allowed Dials)) (sym e') (
                exchanged_for before after s.tasks task (resume x env task s.shared).0 e r.tasks
                  (λ _. good.1));
            tunnels = subst (λ h. All (TunnelAims x ns Allowed) h.tunnels) (sym o) good.0;
          }
      Step-IsRouted {s} some_node weights reach (client_gone before after task e e' o) obeys r =
          record {
            tasks = subst (All (TaskAims x ns Allowed Dials)) (sym e') (
                exchanged_for before after s.tasks task (dropped (counted x task)) e r.tasks
                  (λ _. tt));
            tunnels = subst (λ h. All (TunnelAims x ns Allowed) h.tunnels) (sym o) r.tunnels;
          }
