-- ===== src/Http/Counting.antt =====
-- The balancer's counts over one request of src/http_proxy.rs that goes to a node.
use kitty_proxy.Common.{
  ℕ, ◌+◌, ◌^◌, ◌<◌, [], ◌∷◌, ◌++◌, ◌≡◌, ◌∙◌, true, false, none, some, ◌⊎◌, inl, inr,
}
use kitty_proxy.Common.Outcome.{ok, err, panic}
use kitty_proxy.Text.{codes, text_eq}
use kitty_proxy.Types.{Address, NodeInfo, address_of_node, host_of_address}
use kitty_proxy.Traffic.{TrafficStreamRule}
use kitty_proxy.Balancer.{
  ConnectionStatsBanlancer, get_least_connected_node, incre_count_by_node_info,
  decre_count_by_node_info,
}
use kitty_proxy.Balancer.Counts.{count, set_count, incre-decre}
use kitty_proxy.Socks.Stream.{Stream}
use kitty_proxy.Http.Crates.{Hyper, Request}
use kitty_proxy.Http.{
  HttpEnv, HttpState, upstream, empty, request_host, route, forward_request, exchange,
  serve_connection,
}

-- A request whose host the rules send to a node.
module _ (x : Hyper) (env : HttpEnv x) (req : Request x) (s : HttpState x) {host : Address}
    {request : Request x} {b : ConnectionStatsBanlancer} {n : NodeInfo}
    (found : request_host x req ≡ ok (host, request))
    (proxied : env.traffic_stream (host_of_address host) ≡ TrafficStreamRule.proxy)
    (balanced : s.balancer ≡ some b)
    (least : get_least_connected_node {E = x.Error} env.machine b ≡ ok n) where
  routed : serve_connection x env req s ≡ forward_request x env false host request s
  unfolding serve_connection route
  routed = rw (found, serve_connection, proxied, route)

  -- A CONNECT request that the rules send to a node starts a tunnel to the least node of the
  -- balancer, and is answered at once; its connection is never counted.
  pub connect-uncounted :
      text_eq request.method (codes "CONNECT") ≡ true
      → serve_connection x env req s ≡ (
        ok empty,
        record s {
          tunnels =
              s.tunnels
              ++ record { target_host = address_of_node n; is_direct = false; req = request } ∷ [];
        },
      )
  unfolding forward_request
  connect-uncounted c = routed ∙ rw (balanced, least, c)

  module _ {c : ℕ} {stream : Stream} (other : text_eq request.method (codes "CONNECT") ≡ false)
      (counted : count b n ≡ some c) (room : c + 1 < 2 ^ 64)
      (reached : env.connect (address_of_node n) ≡ some stream) where
    up : incre_count_by_node_info {E = x.Error} env.checks b n ≡ ok (set_count b n (c + 1))
    up = (incre-decre env.checks b n c counted room).0

    down : decre_count_by_node_info {E = x.Error} env.checks (set_count b n (c + 1)) n ≡ ok b
    down = (incre-decre env.checks b n c counted room).1

    exchanged :
        serve_connection x env req s ≡ exchange x env (address_of_node n) false (some n) request s
    exchanged = routed ∙ unfold forward_request in rw (balanced, least, other)

    -- A request other than CONNECT that the rules send to a node, where the least node `n` is
    -- counted below the largest `usize` and is reached: if `n` speaks HTTP and answers, the client
    -- gets that answer, and the state ends as it was.
    pub exchange_balanced :
        (sender : x.Sender) (body : x.Body)
        → env.handshake stream ≡ ok sender
        → env.send_request sender request ≡ ok body
        → serve_connection x env req s ≡ (ok (upstream body), record s { balancer = some b })
    unfolding exchange
    exchange_balanced sender body spoken sent =
        exchanged ∙ rw (reached, balanced, up, spoken, sent, down)

    -- A request other than CONNECT that the rules send to a node, where the least node `n` is
    -- counted below the largest `usize` and is reached: if the handshake with `n` or the exchange
    -- fails, that error is returned, and the count of `n` stays one more than before.
    pub exchange_leak :
        (e : x.Error)
        → ((env.handshake stream ≡ err e)
            ⊎ ((sender : x.Sender) × (env.handshake stream ≡ ok sender)
                × (env.send_request sender request ≡ err e)))
        → serve_connection x env req s
          ≡ (err e, record s { balancer = some (set_count b n (c + 1)) })
    unfolding exchange
    exchange_leak e (inl broken) = exchanged ∙ rw (reached, balanced, up, broken)
    exchange_leak e (inr (sender, spoken, broken)) =
        exchanged ∙ rw (reached, balanced, up, spoken, broken)

  -- A request other than CONNECT that the rules send to a node which cannot be reached panics, and
  -- changes nothing.
  pub unreached_panics :
      text_eq request.method (codes "CONNECT") ≡ false
      → env.connect (address_of_node n) ≡ none
      → serve_connection x env req s ≡ (panic, s)
  unfolding forward_request exchange
  unreached_panics c refused = routed ∙ rw (balanced, least, c, refused)
