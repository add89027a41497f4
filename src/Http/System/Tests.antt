-- ===== src/Http/System/Tests.antt =====
-- A proxy whose rules are edited while it serves one request, and the theorems on it.
use kitty_proxy.Common.{ℕ, [], ◌∷◌, ◌≡◌, refl, sym, ap, true, false, none, some, arith, All, ◌⊎◌}
use kitty_proxy.Common.Outcome.{ok}
use kitty_proxy.Text.{codes, text_eq}
use kitty_proxy.Text.Decimal.{parse_u8, split}
use kitty_proxy.Types.{
  socket_address, SocketAddr, v4, NodeInfo, host_of_address, address_of_node, address_of_ip,
}
use kitty_proxy.Traffic.Rule.{direct}
use kitty_proxy.Traffic.{MatchProxy, default, traffic_stream, add_cidr}
use kitty_proxy.Traffic.Edits.{Edit, cidr, edit}
use kitty_proxy.Traffic.Policy.{Policy, policy_of, amends}
use kitty_proxy.Traffic.Tests.{crates, order, empty}
use kitty_proxy.Balancer.{ConnectionStatsBanlancer, from_vec}
use kitty_proxy.Balancer.Tests.{machine, two_nodes}
use kitty_proxy.Balancer.Serving.{HasWeight}
use kitty_proxy.Balancer.Choice.{IsLeast}
use kitty_proxy.Http.Crates.{Hyper, Request}
use kitty_proxy.Http.{
  HttpEnv, HttpState, request_host, authority_addr, default_port, port_of, host_addr,
}
use kitty_proxy.Http.Tests.{uris}
use kitty_proxy.Socks.Tests.{sending}
use kitty_proxy.Http.Server.{
  HttpProxy, serve, new, Task, arrived, chosen, resume, accepted, resumed,
}
use kitty_proxy.Http.Server.Invariant.{resume_direct}
use kitty_proxy.Http.System.{System, Reach, serving, then_step, edited, served}
use kitty_proxy.Http.System.Amended.{Reach-amends}

abbrev target : SocketAddr
target = record { ip = v4 (record { a = 1; b = 2; c = 3; d = 4 }); port = 80 }

-- Every host that is no IPv6 address is read as 1.2.3.4.
abbrev addresses : Hyper
addresses = record uris { ipv4_from_str = λ t. some (record { a = 1; b = 2; c = 3; d = 4 }) }

abbrev asking : Request addresses
asking = record {
  method = codes "GET";
  uri = (some (none, codes "1.2.3.4"), some (codes "http"));
  headers = λ name. none;
}

abbrev idle : HttpState addresses
idle = record { balancer = some (from_vec two_nodes); tunnels = [] }

abbrev one : Edit
one = cidr (codes "1.0.0.0/8") direct

abbrev after : MatchProxy crates
after = record empty { direct_ipv4_combainer = 1 ∷ [] }

abbrev net : HttpEnv addresses
net = record {
  traffic_stream = traffic_stream crates order after;
  machine = machine;
  checks = true;
  connect = λ a. none;
  handshake = λ stream. ok tt;
  send_request = λ sender req. ok (codes "hi");
}

abbrev Running : Type 0
Running = System crates order addresses true

abbrev started : Running
started = record { rules = empty; server = record { shared = idle; tasks = [] } }

abbrev allowed : Running
allowed = record started { rules = after }

abbrev asked : Running
asked = record allowed { server = record { shared = idle; tasks = arrived asking ∷ [] } }

abbrev gone_on : Running
gone_on = record allowed {
  server = record { shared = idle; tasks = chosen (socket_address target) true none asking ∷ [] };
}

abbrev self : HttpProxy
self = new (codes "127.0.0.1") 10089 none

opened :
    serve {E = ℕ} (λ ip port. true) self two_nodes
    ≡ ok (record self { banlancer = some (from_vec two_nodes); is_serve = true })
unfolding serve new
opened = refl

ruled : after ≡ edit crates empty one
unfolding edit add_cidr parse_u8 split default
ruled = refl

found : request_host addresses asking ≡ ok (socket_address target, asking)
unfolding request_host authority_addr default_port port_of host_addr text_eq address_of_ip
found = refl

called_direct : traffic_stream crates order after (host_of_address (socket_address target)) ≡ direct
unfolding traffic_stream host_of_address
called_direct = refl

went :
    resume addresses net (arrived asking) idle
    ≡ (chosen (socket_address target) true none asking, idle)
went = resume_direct addresses net asking asking (socket_address target) idle found called_direct

-- After an edit and a request.
abbrev waiting : Reach crates order addresses true empty two_nodes asked
waiting =
    then_step
      (then_step {t = allowed}
        (serving (λ ip port. true) self
          (record self { banlancer = some (from_vec two_nodes); is_serve = true }) opened)
        (edited one ruled refl))
      (served (accepted asking refl refl) tt refl)

-- Its task has asked for the rule.
abbrev routed : Reach crates order addresses true empty two_nodes gone_on
routed = then_step waiting (
    served
      (resumed net [] [] (arrived asking) refl (omega arith) refl (sym (ap (λ p. p.0 ∷ []) went))
        (sym (ap (λ p. p.1) went)))
      (λ host. refl) refl)

weights : All HasWeight two_nodes
weights = ((1, refl, omega arith, omega arith), ((2, refl, omega arith, omega arith), tt))

-- The network gives this connection, and the task goes on to dial.
abbrev connected : HttpEnv addresses
connected = record net { connect = λ a. some (sending []) }

abbrev next : Task addresses × HttpState addresses
next = resume addresses connected (chosen (socket_address target) true none asking) idle

abbrev dialled : Running
dialled = record allowed { server = record { shared = next.1; tasks = next.0 ∷ [] } }

abbrev exchanged : Reach crates order addresses true empty two_nodes dialled
exchanged = then_step routed (
    served
      (resumed connected [] [] (chosen (socket_address target) true none asking) refl (omega arith)
        refl refl refl)
      (λ host. refl) refl)

abbrev amended : Policy
amended = amends crates (policy_of crates empty) (one ∷ [])

Reach-amends_example :
    ((amended.is_direct (host_of_address (socket_address target)) ≡ true)
      × (resume addresses net (arrived asking) idle
          ≡ (chosen (socket_address target) true none asking, idle)))
    ⊎ ((amended.is_direct (host_of_address (socket_address target)) ≡ false)
        × (b : ConnectionStatsBanlancer) × (n : NodeInfo) × (some (from_vec two_nodes) ≡ some b)
        × IsLeast machine b n
        × (resume addresses net (arrived asking) idle
            ≡ (chosen (address_of_node n) false (some n) asking, idle)))
Reach-amends_example =
    Reach-amends crates order addresses true empty two_nodes asked waiting asking asking target net
      (λ e. cc) weights found (λ host. refl)
