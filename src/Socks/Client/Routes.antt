-- ===== src/Socks/Client/Routes.antt =====
-- The branches of `handle_client` that take no node, and the accept loop after a panic.
use kitty_proxy.Common.{ℕ, List, ◌∷◌, ◌++◌, ◌≡◌, ◌≢◌, refl, ◌∙◌, ap, true, false, Option}
use kitty_proxy.Common.Outcome.{ok, err, panic}
use kitty_proxy.Text.Utf8.{is_utf8}
use kitty_proxy.Types.{domain, io, unsupported, success}
use kitty_proxy.Traffic.{TrafficStreamRule}
use kitty_proxy.Balancer.{ConnectionStatsBanlancer}
use kitty_proxy.Socks.Stream.{Stream}
use kitty_proxy.Socks.Wire.{SockCommand, connect, bind, udp_assosiate, socks_reply}
use kitty_proxy.Socks.Request.{SocksReq, from_stream, contains_byte}
use kitty_proxy.Socks.Request.Parts.{IsOpen, write_all-IsOpen, shutdown-IsOpen}
use kitty_proxy.Socks.Request.Roundtrip.{encode, answered, from_stream_panics}
use kitty_proxy.Socks.Client.{
  Env, Session, connected, host_port, time_limit, connect_target, dispatch, return_value,
  handle_client, serve_client, serve, Arrival, client, streams,
}

module _ (env : Env) where
  -- A client that is granted its method and asks for a domain that is not UTF-8, over a network
  -- without faults, stops the accept loop: no client behind it is touched.
  pub serve_stops :
      (time_out : Option ℕ) (c : Stream) (others : List Arrival)
      (b : Option ConnectionStatsBanlancer) (methods : List ℕ) (cmd : SockCommand) (name : List ℕ)
      (port : ℕ) (rest : List ℕ)
      → IsOpen c
      → c.input ≡ encode methods cmd (domain name) port ++ rest
      → contains_byte methods 0 ≡ true
      → is_utf8 name ≡ false
      → serve time_out (client env c ∷ others) b ≡ (answered c rest ∷ streams others, b)
  unfolding serve
  serve_stops time_out c others b methods cmd name port rest o e offered bad =
      rw (stopped, serve) (rw stopped)
    where
      panicked :
          handle_client env time_out (record { client = c; balancer = b })
          ≡ (panic, record { client = answered c rest; balancer = b })
      panicked =
          unfold handle_client in
          rw (from_stream_panics c methods cmd name port rest o e offered bad)

      stopped :
          serve_client env time_out (record { client = c; balancer = b })
          ≡ (panic, record { client = answered c rest; balancer = b })
      stopped = unfold serve_client in rw (panicked, serve_client) (rw panicked)

  module _ (time_out : Option ℕ) (s : Session) {req : SocksReq} {rest : Stream}
      (parsed : from_stream s.client ≡ (ok req, rest)) where
    pub handled :
        (command : SockCommand)
        → req.command ≡ command
        → handle_client env time_out s
          ≡ dispatch env time_out req command (record { client = rest; balancer = s.balancer })
    unfolding handle_client
    handled command e = rw parsed (
        ap
          (λ command.
            dispatch env time_out req command (record { client = rest; balancer = s.balancer }))
          e)

    -- A request that parses and is not `Connect` is refused as unsupported: after the parser nothing
    -- is written, and the balancer is not touched.
    pub unsupported_command :
        req.command ≢ connect
        → handle_client env time_out s
          ≡ (err (io unsupported), record { client = rest; balancer = s.balancer })
    unsupported_command n = go req.command refl
      where
        go :
            (command : SockCommand)
            → req.command ≡ command
            → handle_client env time_out s
              ≡ (err (io unsupported), record { client = rest; balancer = s.balancer })
        go connect e = absurd (n e)
        go bind e = handled bind e ∙ unfold dispatch in refl
        go udp_assosiate e = handled udp_assosiate e ∙ unfold dispatch in refl

    -- A connect request for a host that the rules reject, on a stream that is open: only the sending
    -- side is closed, the result is 0, and the balancer is not touched.
    pub rejected_host :
        IsOpen rest
        → req.command ≡ connect
        → env.traffic_stream req.host ≡ TrafficStreamRule.reject
        → handle_client env time_out s
          ≡ (ok 0, record { client = record rest { is_shut = true }; balancer = s.balancer })
    unfolding dispatch
    rejected_host o c r = handled connect c ∙ rw (r, dispatch, shutdown-IsOpen rest o)

    -- A connect request for a host that the rules call direct, on a stream that is open: if the host's
    -- own name and port can be dialled, the client gets the success reply, then the bytes are copied;
    -- the result is that of the copy, and the balancer is not touched.
    pub direct_host :
        (target : Stream)
        → IsOpen rest
        → req.command ≡ connect
        → env.traffic_stream req.host ≡ TrafficStreamRule.direct
        → env.connect_within (time_limit time_out) (host_port req.host req.port) ≡ connected target
        → let replied = record rest { output = rest.output ++ socks_reply success } in
          handle_client env time_out s ≡ (
            return_value env (env.copy_bidirectional replied target).0,
            record { client = (env.copy_bidirectional replied target).1; balancer = s.balancer },
          )
    unfolding dispatch connect_target
    direct_host target o c r d =
        handled connect c ∙ rw (r, dispatch, d, write_all-IsOpen rest (socks_reply success) o)
