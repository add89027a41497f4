-- ===== src/Socks/Client/Stages.antt =====
-- `SOCKClient::handle_client` of src/socks_proxy.rs once more, cut where it waits for the network: the
-- stop of the proxy can drop it there.
pub mod Whole
pub mod Dropped
pub mod Counted
pub mod Tests
use kitty_proxy.Common.{
  ℕ, zero, suc, ◌≡◌, refl, Bool, true, false, if◌then◌else◌, Option, none, some,
}
use kitty_proxy.Common.Outcome.{Outcome, ok, err, panic, continue, ◌>>=◌, ◌>>◌, pure, raise, lift}
use kitty_proxy.Types.{KittyProxyError, io, unsupported, success, NodeInfo}
use kitty_proxy.Traffic.{TrafficStreamRule}
use kitty_proxy.Socks.Stream.{Stream, shutdown}
use kitty_proxy.Socks.Wire.{SockCommand, connect, bind, udp_assosiate, send, socks_reply}
use kitty_proxy.Socks.Request.{SocksReq, from_stream}
use kitty_proxy.Socks.Client.{
  Env, Session, OnSession, TargetServer, time_limit, least_node, incre, decre, target_server,
  dialled, forward, relay, connect_target, dispatch, handle_client, on_client,
}

-- Where `handle_client` stands.
pub data Stage : Type 0 where
  -- It reads the request.
  reading : Stage
  -- It waits for the connection to its target.
  dialling : Bool → SocksReq → Option NodeInfo → TargetServer → Stage
  -- It sends the reply, or the request to the node; a connection to a node is counted.
  replying : Bool → SocksReq → Option NodeInfo → Stream → Stage
  -- It copies.
  copying : Bool → Option NodeInfo → Stream → Stage
  finished : Outcome KittyProxyError ℕ → Stage

stage_after : Outcome KittyProxyError Stage → Stage
stage_after (ok stage) = stage
stage_after (err e) = finished (err e)
stage_after panic = finished panic

module _ (env : Env) (time_out : Option ℕ) where
  -- Lines 275 to 287.
  choose : Bool → SocksReq → OnSession Stage
  choose is_direct req = do
    node_info ← if is_direct then pure none else (do n ← least_node env; pure (some n))
    target ← lift (target_server env is_direct req node_info)
    pure (dialling is_direct req node_info target)

  by_command : SocksReq → SockCommand → OnSession Stage
  unfolding choose
  by_command req connect = elim (env.traffic_stream req.host) [
    | TrafficStreamRule.reject ↦ do on_client shutdown; pure (finished (ok 0))
    | TrafficStreamRule.direct ↦ choose true req
    | TrafficStreamRule.proxy ↦ choose false req
  ]
  by_command req bind = raise (io unsupported)
  by_command req udp_assosiate = raise (io unsupported)

  read_req : OnSession Stage
  unfolding by_command
  read_req = do req ← on_client from_stream; by_command req req.command

  -- Lines 288 to 302.
  dial : Bool → SocksReq → Option NodeInfo → TargetServer → OnSession Stage
  dial is_direct req node_info target = do
    target_stream ← lift (dialled env (env.connect_within (time_limit time_out) target))
    if is_direct then pure tt else incre env node_info
    pure (replying is_direct req node_info target_stream)

  greet : Bool → SocksReq → Option NodeInfo → Stream → OnSession Stage
  greet is_direct req node_info target_stream = do
    target_stream ←
        if is_direct
        then (do on_client (send (socks_reply success)); pure target_stream)
        else lift (forward env req.readed_buffer target_stream)
    pure (copying is_direct node_info target_stream)

  copy : Bool → Option NodeInfo → Stream → OnSession Stage
  copy is_direct node_info target_stream = do
    result ← relay env target_stream
    if is_direct then pure tt else decre env node_info
    pure (finished result)

  work : Stage → OnSession Stage
  unfolding read_req dial greet copy
  work reading = read_req
  work (dialling is_direct req node_info target) = dial is_direct req node_info target
  work (replying is_direct req node_info target) = greet is_direct req node_info target
  work (copying is_direct node_info target) = copy is_direct node_info target
  work (finished r) = pure (finished r)

  pub go_on : Stage → Session → Stage × Session
  unfolding work stage_after
  go_on stage s = let (r, s') = work stage s in (stage_after r, s')

  -- `k` stages on.
  pub stages : ℕ → Stage → Session → Stage × Session
  unfolding go_on
  stages zero stage s = (stage, s)
  stages (suc k) stage s = let (stage', s') = go_on stage s in stages k stage' s'
