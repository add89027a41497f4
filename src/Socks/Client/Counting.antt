-- ===== src/Socks/Client/Counting.antt =====
-- The balancer's counts over one client.
use kitty_proxy.Common.{ℕ, ◌+◌, ◌^◌, ◌<◌, ◌≡◌, ◌∙◌, ap, false, Option, some}
use kitty_proxy.Common.Outcome.{Outcome, ok, err}
use kitty_proxy.Types.{KittyProxyError, NodeInfo}
use kitty_proxy.Traffic.{TrafficStreamRule}
use kitty_proxy.Balancer.{
  ConnectionStatsBanlancer, get_least_connected_node, incre_count_by_node_info,
  decre_count_by_node_info,
}
use kitty_proxy.Balancer.Counts.{count, set_count, incre-decre}
use kitty_proxy.Socks.Stream.{Stream}
use kitty_proxy.Socks.Wire.{connect}
use kitty_proxy.Socks.Request.{SocksReq, from_stream}
use kitty_proxy.Socks.Client.{
  Env, Session, handle_client, dispatch, connect_target, forward, dialled, return_value, time_limit,
  socket, connected,
}

-- A request that goes to a node, up to the connection to that node.
module _ (env : Env) (time_out : Option ℕ) (s : Session) {req : SocksReq} {rest : Stream}
    {b : ConnectionStatsBanlancer} {n : NodeInfo} {c : ℕ}
    (parsed : from_stream s.client ≡ (ok req, rest)) (connects : req.command ≡ connect)
    (proxied : env.traffic_stream req.host ≡ TrafficStreamRule.proxy)
    (balanced : s.balancer ≡ some b)
    (least : get_least_connected_node {E = KittyProxyError} env.machine b ≡ ok n)
    (counted : count b n ≡ some c) (room : c + 1 < 2 ^ 64) where
  up : incre_count_by_node_info {E = KittyProxyError} env.checks b n ≡ ok (set_count b n (c + 1))
  up = (incre-decre env.checks b n c counted room).0

  down : decre_count_by_node_info {E = KittyProxyError} env.checks (set_count b n (c + 1)) n ≡ ok b
  down = (incre-decre env.checks b n c counted room).1

  begins :
      (out : Outcome KittyProxyError ℕ × Session)
      → connect_target env
          (time_limit time_out)
          false
          req
          (record { client = rest; balancer = some b })
        ≡ out
      → handle_client env time_out s ≡ out
  unfolding handle_client
  begins out e =
      rw (parsed, balanced)
        (ap
            (λ command.
              dispatch env time_out req command (record { client = rest; balancer = some b }))
            connects
          ∙ dispatched
          ∙ e)
    where
      dispatched :
          dispatch env time_out req connect (record { client = rest; balancer = some b })
          ≡ connect_target env
              (time_limit time_out)
              false
              req
              (record { client = rest; balancer = some b })
      dispatched = unfold dispatch in rw (proxied, dispatch)

  -- A connect request that the rules send to a node, where the least node `n` of the balancer is
  -- counted below the largest `usize`: if `n` cannot be reached, `handle_client` returns that error
  -- and the balancer stays as it is.
  pub unreached :
      (e : KittyProxyError)
      → dialled env (env.connect_within (time_limit time_out) (socket n.socket_addr)) ≡ err e
      → handle_client env time_out s ≡ (err e, record { client = rest; balancer = some b })
  unfolding connect_target
  unreached e failed = begins _ (rw (least, failed))

  -- A connect request that the rules send to a node, where the least node `n` of the balancer is
  -- counted below the largest `usize`: if `n` is reached, takes the request's bytes and answers the
  -- greeting, the result and the client's stream are those of the copy that follows, and whether the
  -- copy succeeds or fails the balancer ends as it was.
  pub relayed :
      (target answered : Stream)
      → env.connect_within (time_limit time_out) (socket n.socket_addr) ≡ connected target
      → forward env req.readed_buffer target ≡ ok answered
      → handle_client env time_out s ≡ (
        return_value env (env.copy_bidirectional rest answered).0,
        record { client = (env.copy_bidirectional rest answered).1; balancer = some b },
      )
  unfolding connect_target
  relayed target answered reached sent = begins _ (rw (least, reached, up, sent, down))

  -- A connect request that the rules send to a node, where the least node `n` of the balancer is
  -- counted below the largest `usize`: if `n` is reached but does not take the request, or does not
  -- answer the greeting, `handle_client` returns that error, and the connection that is gone stays
  -- counted: the count of `n` is one more than before.
  pub leak :
      (target : Stream) (e : KittyProxyError)
      → env.connect_within (time_limit time_out) (socket n.socket_addr) ≡ connected target
      → forward env req.readed_buffer target ≡ err e
      → handle_client env time_out s
        ≡ (err e, record { client = rest; balancer = some (set_count b n (c + 1)) })
  unfolding connect_target
  leak target e reached fail = begins _ (rw (least, reached, up, fail))
