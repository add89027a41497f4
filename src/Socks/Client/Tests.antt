-- ===== src/Socks/Client/Tests.antt =====
-- Clients of a proxy with two nodes, and the theorems on src/socks_proxy.rs at them.
use kitty_proxy.Common.{ℕ, List, [], ◌∷◌, ◌++◌, ◌≡◌, refl, true, none, some, arith}
use kitty_proxy.Common.Outcome.{ok, err}
use kitty_proxy.Text.{codes}
use kitty_proxy.Text.Utf8.{is_utf8}
use kitty_proxy.Types.{
  io, proxy, command_not_supported, broken_pipe, unexpected_eof, domain, NodeInfo-discrete,
  connection_reset,
}
use kitty_proxy.HashMap.{get, insert}
use kitty_proxy.Traffic.{TrafficStreamRule}
use kitty_proxy.Balancer.{get_least_connected_node}
use kitty_proxy.Balancer.Counts.{set_count}
use kitty_proxy.Balancer.Tests.{machine, node, busy}
use kitty_proxy.Socks.Stream.{Stream}
use kitty_proxy.Socks.Wire.{connect, socks_reply, send}
use kitty_proxy.Socks.Request.{from_stream, contains_byte}
use kitty_proxy.Socks.Request.Roundtrip.{encode, answered}
use kitty_proxy.Socks.Request.Panics.{IsMisnamed, from_stream-IsMisnamed}
use kitty_proxy.Socks.Request.Closing.{refusal_unanswered}
use kitty_proxy.Socks.Tests.{sending, to_domain, cn_request}
use kitty_proxy.Socks.Client.{
  Env, Session, Dial, Arrival, client, accept_failed, streams, timed_out, connected, copied,
  copy_failed, handle_client, serve_client, serve, return_value, forward,
}
use kitty_proxy.Socks.Client.Counting.{leak}
use kitty_proxy.Socks.Client.Routes.{serve_stops}
use kitty_proxy.Socks.Client.Chained.{serve_client-forward}

abbrev bad_name : List ℕ
bad_name = 255 ∷ []

abbrev to_bad_name : Stream
to_bad_name = sending (encode (0 ∷ []) connect (domain bad_name) 443 ++ [])

from_stream-IsMisnamed_example : IsMisnamed to_bad_name.input
unfolding from_stream
from_stream-IsMisnamed_example = from_stream-IsMisnamed to_bad_name refl

-- Command 9 does not exist.
abbrev refused : Stream
refused = sending (5 ∷ 1 ∷ 0 ∷ 5 ∷ 9 ∷ 0 ∷ 1 ∷ [])

abbrev refused_after : Stream
refused_after = record (answered refused []) { is_shut = true }

refusal_unanswered_example :
    send (socks_reply command_not_supported) refused_after ≡ (err (io broken_pipe), refused_after)
unfolding from_stream
refusal_unanswered_example =
    refusal_unanswered refused refused_after (proxy command_not_supported)
      (socks_reply command_not_supported) refl refl (λ k e. cc)

-- A network in which every target answers with `reply`, and every copy moves nothing.
abbrev pub network : TrafficStreamRule → Dial → Env
network rule dial = record {
  connect_within = λ t target. dial;
  copy_bidirectional = λ client target. (copied 3 7, client);
  traffic_stream = λ host. rule;
  machine = machine;
  checks = true;
}

abbrev pub start : Session
start = record { client = sending to_domain; balancer = some busy }

abbrev pub parsed : Stream
parsed = answered (sending to_domain) []

abbrev pub answering : Stream
answering = sending (5 ∷ 0 ∷ [])

abbrev pub silent : Stream
silent = sending []

leak_example : handle_client (network TrafficStreamRule.proxy (connected silent)) none start ≡ (
  err (io unexpected_eof),
  record { client = parsed; balancer = some (set_count busy (node 2 2) 5) },
)
unfolding from_stream get_least_connected_node NodeInfo-discrete get insert forward
leak_example =
    leak (network TrafficStreamRule.proxy (connected silent)) none start {req = cn_request}
      {rest = parsed} {n = node 2 2} {c = 4} refl refl refl refl refl refl (omega arith) silent
      (io unexpected_eof) refl refl

-- After the client with the bad name another one arrives, and `accept` fails once.
abbrev others : List Arrival
others =
    accept_failed
    ∷ client (network TrafficStreamRule.proxy (connected silent)) (sending to_domain)
    ∷ []

serve_stops_example :
    serve none (client (network TrafficStreamRule.direct timed_out) to_bad_name ∷ others) none
    ≡ (answered to_bad_name [] ∷ streams others, none)
unfolding contains_byte is_utf8
serve_stops_example =
    serve_stops (network TrafficStreamRule.direct timed_out) none to_bad_name others none (0 ∷ [])
      connect bad_name 443 [] (record { open_side = refl; no_fault = refl }) refl refl refl

-- The copy moves bytes to the client and then fails.
abbrev broken : Env
broken = record (network TrafficStreamRule.direct (connected silent)) {
  copy_bidirectional = λ client target.
      (copy_failed connection_reset, record client { output = client.output ++ 1 ∷ [] });
}

serve_client-forward_example :
    serve_client (network TrafficStreamRule.proxy (connected answering)) none start
    ≡ (ok tt, record { client = parsed; balancer = some busy })
unfolding get_least_connected_node NodeInfo-discrete get insert return_value contains_byte is_utf8
serve_client-forward_example =
    serve_client-forward (network TrafficStreamRule.proxy (connected answering)) none start.client
      {b = busy} (node 2 2) {k = 4} (0 ∷ []) (domain (codes "cn")) 443 []
      (record { open_side = refl; no_fault = refl }) refl refl refl answering 5 0 [] refl refl refl
      (omega arith) refl (record { open_side = refl; no_fault = refl }) refl
