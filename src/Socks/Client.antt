-- ===== src/Socks/Client.antt =====
-- `SOCKClient::handle_client` of src/socks_proxy.rs and the body of the accept loop in
-- `SocksProxy::serve`.
pub mod Counting
pub mod Routes
pub mod Encoded
pub mod Stages
pub mod Chained
pub mod Calm
pub mod Kept
pub mod Held
pub mod Fits
pub mod Serving
pub mod Tests
use kitty_proxy.Common.{ℕ, List, [], ◌∷◌, Bool, true, false, Option, none, some, if◌then◌else◌}
use kitty_proxy.Common.Outcome.{
  Outcome, ok, err, panic, ◌>>=◌, ◌>>◌, pure, raise, lift, gets, unwrap,
}
use kitty_proxy.Types.{
  KittyProxyError, io, proxy, ErrorKind, not_connected, unsupported, connection_refused,
  response_code, ResponseCode, success, Host, SocketAddr, NodeInfo,
}
use kitty_proxy.Traffic.{TrafficStreamRule}
use kitty_proxy.Balancer.{
  ConnectionStatsBanlancer, Machine, get_least_connected_node, incre_count_by_node_info,
  decre_count_by_node_info, map_ok,
}
use kitty_proxy.Socks.Stream.{Stream, read_exact, write_all, shutdown}
use kitty_proxy.Socks.Wire.{connect, bind, udp_assosiate, SockCommand, send, socks_reply}
use kitty_proxy.Socks.Request.{SocksReq, OnStream, from_stream}

-- What `format!("{}:{}", host, port)` and `socket_addr.to_string()` name.
pub data TargetServer : Type 0 where
  host_port : Host → ℕ → TargetServer
  socket : SocketAddr → TargetServer

-- `timeout(.., TcpStream::connect(..))`
pub data Dial : Type 0 where
  timed_out : Dial
  failed : ErrorKind → Dial
  connected : Stream → Dial

-- `copy_bidirectional`: the bytes copied each way, or an error.
pub data Copied : Type 0 where
  copied : ℕ → ℕ → Copied
  copy_failed : ErrorKind → Copied

-- What the proxy runs on: the network, the rules, floats and map orders, and whether `usize`
-- arithmetic is checked.
pub record Env : Type 1 where
  pub connect_within : ℕ → TargetServer → Dial
  pub copy_bidirectional : Stream → Stream → Copied × Stream
  pub traffic_stream : Host → TrafficStreamRule
  pub machine : Machine
  pub checks : Bool

-- The client's stream and the balancer behind its lock. No other task holds this balancer: the
-- accept loop handles its clients one after the other.
pub record Session : Type 0 where
  pub client : Stream
  pub balancer : Option ConnectionStatsBanlancer

abbrev pub OnSession : Type 0 → Type 0
OnSession A = Session → Outcome KittyProxyError A × Session

abbrev on_client : {A : Type 0} → OnStream A → OnSession A
on_client m s = let (r, c) = m s.client in (r, record s { client = c })

-- `self.timeout`, or a second.
abbrev pub time_limit : Option ℕ → ℕ
time_limit none = 1000
time_limit (some t) = t

module _ (env : Env) where
  -- `banlancer.as_ref().unwrap().get_least_connected_node()`
  least_node : OnSession NodeInfo
  least_node s = elim s.balancer [
    | none ↦ (panic, s)
    | some b ↦ (get_least_connected_node env.machine b, s)
  ]

  put_balancer :
      Session
      → Outcome KittyProxyError ConnectionStatsBanlancer
      → Outcome KittyProxyError (Unit {0}) × Session
  put_balancer s (ok b) = (ok tt, record s { balancer = some b })
  put_balancer s (err e) = (err e, s)
  put_balancer s panic = (panic, s)

  -- `incre_count_by_node_info(&node_info.unwrap())` under the lock.
  pub incre : Option NodeInfo → OnSession (Unit {0})
  unfolding put_balancer
  incre chosen s = elim s.balancer [
    | none ↦ (panic, s)
    | some b ↦ elim chosen [
      | none ↦ (panic, s)
      | some n ↦ put_balancer s (incre_count_by_node_info env.checks b n)
    ]
  ]

  pub decre : Option NodeInfo → OnSession (Unit {0})
  unfolding put_balancer
  decre chosen s = elim s.balancer [
    | none ↦ (panic, s)
    | some b ↦ elim chosen [
      | none ↦ (panic, s)
      | some n ↦ put_balancer s (decre_count_by_node_info env.checks b n)
    ]
  ]

  pub target_server : Bool → SocksReq → Option NodeInfo → Outcome KittyProxyError TargetServer
  target_server true req _ = ok (host_port req.host req.port)
  target_server false req none = panic
  target_server false req (some n) = ok (socket n.socket_addr)

  pub dialled : Dial → Outcome KittyProxyError Stream
  dialled timed_out = err (proxy ResponseCode.connection_refused)
  dialled (failed kind) = err (io kind)
  dialled (connected target) = ok target

  -- The node gets the client's bytes, and its answer to the greeting is dropped.
  pub forward : List ℕ → Stream → Outcome KittyProxyError Stream
  unfolding write_all read_exact
  forward buffer target =
      let (r, t) = (do write_all buffer; read_exact 2) target in map_ok (λ _. t) r

  pub return_value : Copied → Outcome KittyProxyError ℕ
  return_value (copied s_to_t t_to_s) = ok t_to_s
  return_value (copy_failed not_connected) = ok 0
  return_value (copy_failed kind) = err (io kind)

  relay : Stream → OnSession (Outcome KittyProxyError ℕ)
  unfolding return_value
  relay target s =
      let (c, client) = env.copy_bidirectional s.client target in
      (ok (return_value c), record s { client = client })

  -- After the rule is known: lines 275 to 332.
  pub connect_target : ℕ → Bool → SocksReq → OnSession ℕ
  unfolding least_node incre decre target_server dialled forward relay send socks_reply
  connect_target time_out is_direct req = do
    node_info ← if is_direct then pure none else (do n ← least_node; pure (some n))
    target ← lift (target_server is_direct req node_info)
    target_stream ← lift (dialled (env.connect_within time_out target))
    if is_direct then pure tt else incre node_info
    target_stream ←
        if is_direct
        then (do on_client (send (socks_reply success)); pure target_stream)
        else lift (forward req.readed_buffer target_stream)
    result ← relay target_stream
    if is_direct then pure tt else decre node_info
    lift result

  pub dispatch : Option ℕ → SocksReq → SockCommand → OnSession ℕ
  unfolding connect_target shutdown
  dispatch time_out req connect = elim (env.traffic_stream req.host) [
    | TrafficStreamRule.reject ↦ do on_client shutdown; pure 0
    | TrafficStreamRule.direct ↦ connect_target (time_limit time_out) true req
    | TrafficStreamRule.proxy ↦ connect_target (time_limit time_out) false req
  ]
  dispatch time_out req bind = raise (io unsupported)
  dispatch time_out req udp_assosiate = raise (io unsupported)

  unfoldable pub handle_client : Option ℕ → OnSession ℕ
  unfolding dispatch from_stream
  handle_client time_out = do req ← on_client from_stream; dispatch time_out req req.command

  -- One round of the accept loop: an error is answered by its reply code, and the sending side is
  -- closed; failures of these two are logged. A panic ends the task, and the loop with it.
  unfoldable pub serve_client : Option ℕ → OnSession (Unit {0})
  unfolding handle_client send shutdown socks_reply
  serve_client time_out s =
      let (r, s') = handle_client time_out s in
      elim r [
        | ok _ ↦ (ok tt, s')
        | err e ↦
            let (_, replied) = send (socks_reply (response_code e)) s'.client in
            let (_, closed) = shutdown replied in (ok tt, record s' { client = closed })
        | panic ↦ (panic, s')
      ]

-- What `listener.accept()` returns: a client, and what the proxy runs on while it is handled, or an
-- error.
pub data Arrival : Type 1 where
  client : Env → Stream → Arrival
  accept_failed : Arrival

-- The connections among them.
pub streams : List Arrival → List Stream
streams [] = []
streams (client env c ∷ arrivals) = c ∷ streams arrivals
streams (accept_failed ∷ arrivals) = streams arrivals

-- The accept loop on what arrives, one after the other: the connections as they are left, those after
-- a panic untouched. An error of `accept` panics in `unwrap`.
unfoldable pub serve :
    Option ℕ
    → List Arrival
    → Option ConnectionStatsBanlancer
    → List Stream × Option ConnectionStatsBanlancer
unfolding serve_client streams
serve time_out [] b = ([], b)
serve time_out (accept_failed ∷ arrivals) b = (streams arrivals, b)
serve time_out (client env c ∷ arrivals) b =
    let (r, s) = serve_client env time_out (record { client = c; balancer = b }) in
    let rest = serve time_out arrivals s.balancer in
    elim r [
      | ok _ ↦ (s.client ∷ rest.0, rest.1)
      | err _ ↦ (s.client ∷ streams arrivals, s.balancer)
      | panic ↦ (s.client ∷ streams arrivals, s.balancer)
    ]
