-- ===== src/Http/System/Routed.antt =====
-- Where the connections of src/http_proxy.rs go while the rules are edited.
use kitty_proxy.Common.{List, ◌≡◌, some, ◌⊎◌, Bool, Mem}
use kitty_proxy.Types.{Address, host_of_address, NodeInfo}
use kitty_proxy.Traffic.Crates.{Deps, Order}
use kitty_proxy.Traffic.Rule.{TrafficStreamRule, direct}
use kitty_proxy.Traffic.{MatchProxy, traffic_stream}
use kitty_proxy.Socks.Stream.{Stream}
use kitty_proxy.Http.Crates.{Hyper}
use kitty_proxy.Http.Server
use kitty_proxy.Http.Server.{Server, accepted, resumed, client_gone}
use kitty_proxy.Http.System.{System, Reach, serving, then_step, edited, served}

module _ (d : Deps) (order : Order TrafficStreamRule) (x : Hyper) (checks : Bool) where
  -- One of these rules calls the address direct.
  abbrev pub Allowed : List (MatchProxy d) → Address → Type 0
  Allowed ms a =
      (m : MatchProxy d) × Mem m ms × (traffic_stream d order m (host_of_address a) ≡ direct)

  -- What the network gives for an address in a step.
  abbrev Connects : {s t : Server x} → Server.Step x checks s t → Address → Stream → Type 0
  Connects (accepted req o e) a stream = ⊥
  Connects (resumed env before after task same room e e' o) a stream = env.connect a ≡ some stream
  Connects (client_gone before after task e e' o) a stream = ⊥

  module _ {m : MatchProxy d} {ns : List NodeInfo} where
    -- The network has given this connection for the address, in a step so far.
    abbrev pub Dials :
        {s : System d order x checks} → Reach d order x checks m ns s → Address → Stream → Type 0
    Dials (serving bind self proxy e) a stream = ⊥
    Dials (then_step reach (edited e m' same)) a stream = Dials reach a stream
    Dials (then_step reach (served step reads m')) a stream =
        Connects step a stream ⊎ Dials reach a stream
