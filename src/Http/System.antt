-- ===== src/Http/System.antt =====
-- The HTTP proxy of src/http_proxy.rs with its rules behind their lock: tasks read the rules of
-- src/traffic_diversion.rs while others edit them.
pub mod Routed
pub mod Amended
pub mod Tests
use kitty_proxy.Common.{ℕ, List, [], ◌∷◌, ◌++◌, ◌≡◌, subst, sym, Bool}
use kitty_proxy.Common.Outcome.{ok}
use kitty_proxy.Text.{Text}
use kitty_proxy.Types.{Host, NodeInfo}
use kitty_proxy.Traffic.Crates.{Deps, Order}
use kitty_proxy.Traffic.Rule.{TrafficStreamRule}
use kitty_proxy.Traffic.{MatchProxy, traffic_stream}
use kitty_proxy.Traffic.Edits.{Edit, edit}
use kitty_proxy.Http.Crates.{Hyper}
use kitty_proxy.Http.Server
use kitty_proxy.Http.Server.{HttpProxy, Server, accepted, resumed, client_gone, serve}

module _ (d : Deps) (order : Order TrafficStreamRule) (x : Hyper) (checks : Bool) where
  pub record System : Type 0 where
    pub rules : MatchProxy d
    pub server : Server x

  -- A task that goes on asks these rules.
  abbrev pub Reads : MatchProxy d → {s t : Server x} → Server.Step x checks s t → Type 0
  Reads m (accepted req o e) = Unit
  Reads m (resumed env before after task same room e e' o) =
      (host : Host) → env.traffic_stream host ≡ traffic_stream d order m host
  Reads m (client_gone before after task e e' o) = Unit

  -- One writer edits the rules, or the tasks take a step, whose readers hold the lock meanwhile.
  pub data Step (s t : System) : Type 1 where
    edited : (e : Edit) → t.rules ≡ edit d s.rules e → t.server ≡ s.server → Step s t
    served :
        (step : Server.Step x checks s.server t.server)
        → Reads s.rules step
        → t.rules ≡ s.rules
        → Step s t

  -- What a proxy can come to after a call of `serve` with these rules and nodes.
  pub data Reach (m : MatchProxy d) (ns : List NodeInfo) : System → Type 1 where
    serving :
        (bind : Text → ℕ → Bool) (self proxy : HttpProxy)
        → serve {E = x.Error} bind self ns ≡ ok proxy
        → Reach m ns (record {
          rules = m;
          server = record {
            shared = record { balancer = proxy.banlancer; tunnels = [] };
            tasks = [];
          };
        })
    then_step : {s t : System} → Reach m ns s → Step s t → Reach m ns t

  module _ {m : MatchProxy d} {ns : List NodeInfo} where
    -- Every set of rules that was in force so far.
    abbrev pub seen : {s : System} → Reach m ns s → List (MatchProxy d)
    seen (serving bind self proxy e) = m ∷ []
    seen (then_step {t} reach step) = t.rules ∷ seen reach

    -- The edits so far, the first one first.
    abbrev pub made : {s : System} → Reach m ns s → List Edit
    made (serving bind self proxy e) = []
    made (then_step reach (edited e m' same)) = made reach ++ e ∷ []
    made (then_step reach (served step reads m')) = made reach

    -- The tasks take the steps that they take under rules that change in any way.
    pub server_Reach : {s : System} → Reach m ns s → Server.Reach x checks ns s.server
    server_Reach (serving bind self proxy e) = Server.serving bind self proxy e
    server_Reach (then_step reach (edited e m' same)) =
        subst (Server.Reach x checks ns) (sym same) (server_Reach reach)
    server_Reach (then_step reach (served step reads m')) =
        Server.then_step (server_Reach reach) step
