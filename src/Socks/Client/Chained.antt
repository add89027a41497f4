-- ===== src/Socks/Client/Chained.antt =====
-- A client of src/socks_proxy.rs that is sent on to a node: what the node gets to see.
use kitty_proxy.Common.{ℕ, ◌+◌, ◌^◌, ◌<◌, List, [], ◌∷◌, ◌++◌, ◌≡◌, refl, true, Option, some}
use kitty_proxy.Common.Outcome.{ok}
use kitty_proxy.Types.{Host, NodeInfo, KittyProxyError}
use kitty_proxy.Traffic.{TrafficStreamRule}
use kitty_proxy.Balancer.{ConnectionStatsBanlancer, get_least_connected_node}
use kitty_proxy.Balancer.Counts.{count}
use kitty_proxy.Socks.Stream.{Stream}
use kitty_proxy.Socks.Wire.{connect}
use kitty_proxy.Socks.Request.{contains_byte}
use kitty_proxy.Socks.Request.Parts.{IsOpen, write_all-IsOpen, read_exact-append}
use kitty_proxy.Socks.Request.Roundtrip.{encode, answered, IsText, from_stream-encode}
use kitty_proxy.Socks.Client.{
  Env, connected, socket, time_limit, return_value, serve_client, forward,
}
use kitty_proxy.Socks.Client.Counting.{relayed}
use kitty_proxy.Socks.Client.Encoded.{copied_to, finished, return_value-ne-panic}

module _ (env : Env) where
  -- A node that is open takes the bytes, and its two-byte answer is dropped.
  forward-IsOpen :
      (bytes : List ℕ) (target : Stream) (x y : ℕ) (more : List ℕ)
      → IsOpen target
      → target.input ≡ x ∷ y ∷ more
      → forward env bytes target
        ≡ ok (record target { input = more; output = target.output ++ bytes })
  unfolding forward
  forward-IsOpen bytes target x y more opened e =
      rw
        (
          write_all-IsOpen target bytes opened,
          read_exact-append (record target { output = target.output ++ bytes }) (x ∷ y ∷ []) more e,
        )
        refl

  module _ (time_out : Option ℕ) (c : Stream) {b : ConnectionStatsBanlancer} (n : NodeInfo) {k : ℕ}
      (methods : List ℕ) (h : Host) (port : ℕ) (rest : List ℕ) (opened : IsOpen c)
      (written : c.input ≡ encode methods connect h port ++ rest)
      (offered : contains_byte methods 0 ≡ true) (text : IsText h) where
    -- A client that offers "no authentication", writes by RFC 1928 a request to connect to a host
    -- whose domain is UTF-8, over a stream that is open and without faults, for a host that the rules
    -- send to a node, where the least node of the balancer is counted below the largest `usize`: if
    -- that node is reached over a stream that is open and without faults, and it answers the greeting
    -- by two bytes, it gets the bytes of the client's greeting and request as they were written, and
    -- the client's side and the node's are handed over with what follows on each, the two bytes
    -- dropped. The client has got no more than its method by then. The balancer ends as it was, and
    -- the loop goes on.
    pub serve_client-forward :
        (target : Stream) (x y : ℕ) (more : List ℕ)
        → env.traffic_stream h ≡ TrafficStreamRule.proxy
        → get_least_connected_node {E = KittyProxyError} env.machine b ≡ ok n
        → count b n ≡ some k
        → k + 1 < 2 ^ 64
        → env.connect_within (time_limit time_out) (socket n.socket_addr) ≡ connected target
        → IsOpen target
        → target.input ≡ x ∷ y ∷ more
        → let node = record target {
          input = more;
          output = target.output ++ encode methods connect h port;
        } in
          serve_client env time_out (record { client = c; balancer = some b }) ≡ (
            ok tt,
            record {
              client =
                  copied_to env
                    (return_value env (env.copy_bidirectional (answered c rest) node).0)
                    (env.copy_bidirectional (answered c rest) node).1;
              balancer = some b;
            },
          )
    serve_client-forward target x y more rule least counted room dialling ready answers =
        finished env time_out c (some b) _ _ (return_value-ne-panic env _) (
          relayed env time_out (record { client = c; balancer = some b })
            (from_stream-encode c methods connect h port rest opened written offered text) refl rule
            refl least counted room target _ dialling
            (forward-IsOpen (encode methods connect h port) target x y more ready answers))
