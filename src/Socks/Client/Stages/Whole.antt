-- ===== src/Socks/Client/Stages/Whole.antt =====
-- The stages of src/socks_proxy.rs make up `SOCKClient::handle_client`.
use kitty_proxy.Common.{
  ℕ, zero, suc, ◌≡◌, refl, Bool, true, false, if◌then◌else◌, Option, none, some,
}
use kitty_proxy.Common.Outcome.{Outcome, ok, err, panic, continue, ◌>>=◌, ◌>>◌, pure, lift}
use kitty_proxy.Types.{KittyProxyError, io, unsupported, success, NodeInfo}
use kitty_proxy.Traffic.{TrafficStreamRule}
use kitty_proxy.Socks.Stream.{Stream, shutdown}
use kitty_proxy.Socks.Wire.{SockCommand, connect, bind, udp_assosiate, send, socks_reply}
use kitty_proxy.Socks.Request.{SocksReq, from_stream}
use kitty_proxy.Socks.Client.{
  Env, Session, OnSession, TargetServer, time_limit, least_node, incre, decre, target_server,
  dialled, forward, relay, connect_target, dispatch, handle_client, on_client,
}
use kitty_proxy.Socks.Client.Stages.{
  Stage, reading, dialling, replying, copying, finished, stage_after, choose, by_command, read_req,
  dial, greet, copy, work, go_on, stages,
}

module _ (env : Env) (time_out : Option ℕ) where
  -- The work that is left comes to this result.
  Same : ℕ → Outcome KittyProxyError Stage × Session → Outcome KittyProxyError ℕ × Session → Type 0
  Same k p q = stages env time_out k (stage_after p.0) p.1 ≡ (finished q.0, q.1)

  done-Same :
      (k : ℕ) (r : Outcome KittyProxyError ℕ) (s : Session) → Same k (ok (finished r), s) (r, s)
  unfolding Same stages stage_after work go_on
  done-Same zero r s = refl
  done-Same (suc k) r s = done-Same k r s

  err-Same : (k : ℕ) (e : KittyProxyError) (s : Session) → Same k (err e, s) (err e, s)
  unfolding Same stages stage_after
  err-Same k e s = done-Same k (err e) s

  panic-Same : (k : ℕ) (s : Session) → Same k (panic, s) (panic, s)
  unfolding Same stages stage_after
  panic-Same k s = done-Same k panic s

  bind-Same :
      {A : Type 0} (k : ℕ) (m : OnSession A) (f : A → OnSession Stage) (g : A → OnSession ℕ)
      (s : Session)
      → ((a : A) (t : Session) → Same k (f a t) (g a t))
      → Same k ((m >>= f) s) ((m >>= g) s)
  bind-Same {A} k m f g s h = go (m s).0 (m s).1
    where
      go : (r : Outcome KittyProxyError A) (t : Session) → Same k (continue r f t) (continue r g t)
      go (ok a) t = h a t
      go (err e) t = err-Same k e t
      go panic t = panic-Same k t

  later-Same :
      (k : ℕ) (stage : Stage) (s : Session) (q : Outcome KittyProxyError ℕ × Session)
      → Same k (work env time_out stage s) q
      → Same (suc k) (ok stage, s) q
  unfolding Same stages stage_after go_on
  later-Same k stage s q h = h

  -- What is left of `handle_client` at the last three stages.
  rest_of_copying : Bool → Option NodeInfo → Stream → OnSession ℕ
  rest_of_copying is_direct node_info target_stream = do
    result ← relay env target_stream
    if is_direct then pure tt else decre env node_info
    lift result

  rest_of_replying : Bool → SocksReq → Option NodeInfo → Stream → OnSession ℕ
  unfolding rest_of_copying
  rest_of_replying is_direct req node_info target_stream = do
    target_stream ←
        if is_direct
        then (do on_client (send (socks_reply success)); pure target_stream)
        else lift (forward env req.readed_buffer target_stream)
    rest_of_copying is_direct node_info target_stream

  rest_of_dialling : Bool → SocksReq → Option NodeInfo → TargetServer → OnSession ℕ
  unfolding rest_of_replying
  rest_of_dialling is_direct req node_info target = do
    target_stream ← lift (dialled env (env.connect_within (time_limit time_out) target))
    if is_direct then pure tt else incre env node_info
    rest_of_replying is_direct req node_info target_stream

  copy-Same :
      (is_direct : Bool) (node_info : Option NodeInfo) (target : Stream) (s : Session)
      → Same 0
          (copy env time_out is_direct node_info target s)
          (rest_of_copying is_direct node_info target s)
  unfolding copy rest_of_copying
  copy-Same is_direct node_info target s = bind-Same 0 (relay env target) _ _ s λ result t.
      bind-Same 0 (if is_direct then pure tt else decre env node_info) _ _ t
        λ _ u. done-Same 0 result u

  greet-Same :
      (is_direct : Bool) (req : SocksReq) (node_info : Option NodeInfo) (target : Stream)
      (s : Session)
      → Same 1
          (greet env time_out is_direct req node_info target s)
          (rest_of_replying is_direct req node_info target s)
  unfolding greet rest_of_replying work
  greet-Same is_direct req node_info target s =
      bind-Same 1
        (if is_direct
          then (do on_client (send (socks_reply success)); pure target)
          else lift (forward env req.readed_buffer target))
        _ _ s
        λ target_stream t.
          later-Same 0 (copying is_direct node_info target_stream) t _
            (copy-Same is_direct node_info target_stream t)

  dial-Same :
      (is_direct : Bool) (req : SocksReq) (node_info : Option NodeInfo) (target : TargetServer)
      (s : Session)
      → Same 2
          (dial env time_out is_direct req node_info target s)
          (rest_of_dialling is_direct req node_info target s)
  unfolding dial rest_of_dialling work
  dial-Same is_direct req node_info target s =
      bind-Same 2 (lift (dialled env (env.connect_within (time_limit time_out) target))) _ _ s
        λ target_stream t.
          bind-Same 2 (if is_direct then pure tt else incre env node_info) _ _ t λ _ u.
            later-Same 1 (replying is_direct req node_info target_stream) u _
              (greet-Same is_direct req node_info target_stream u)

  choose-Same :
      (is_direct : Bool) (req : SocksReq) (s : Session)
      → Same 3
          (choose env time_out is_direct req s)
          (connect_target env (time_limit time_out) is_direct req s)
  unfolding choose connect_target rest_of_dialling rest_of_replying rest_of_copying work
  choose-Same is_direct req s =
      bind-Same 3 (if is_direct then pure none else (do n ← least_node env; pure (some n))) _ _ s
        λ node_info t.
          bind-Same 3 (lift (target_server env is_direct req node_info)) _ _ t λ target u.
            later-Same 2 (dialling is_direct req node_info target) u _
              (dial-Same is_direct req node_info target u)

  by_command-Same :
      (req : SocksReq) (command : SockCommand) (s : Session)
      → Same 3 (by_command env time_out req command s) (dispatch env time_out req command s)
  unfolding by_command dispatch
  by_command-Same req connect s = ruled (env.traffic_stream req.host) refl
    where
      ruled :
          (rule : TrafficStreamRule)
          → env.traffic_stream req.host ≡ rule
          → Same 3 (by_command env time_out req connect s) (dispatch env time_out req connect s)
      ruled TrafficStreamRule.reject e =
          rw (e, by_command, dispatch)
            (bind-Same 3 (on_client shutdown) _ _ s λ _ t. done-Same 3 (ok 0) t)
      ruled TrafficStreamRule.direct e = rw (e, by_command, dispatch) (choose-Same true req s)
      ruled TrafficStreamRule.proxy e = rw (e, by_command, dispatch) (choose-Same false req s)
  by_command-Same req bind s = err-Same 3 (io unsupported) s
  by_command-Same req udp_assosiate s = err-Same 3 (io unsupported) s

  -- A client that is not stopped has ended after four stages, with the result and the state of
  -- `handle_client`.
  pub stages-handle_client :
      (s : Session)
      → stages env time_out 4 reading s
        ≡ (finished (handle_client env time_out s).0, (handle_client env time_out s).1)
  unfolding handle_client stages go_on work read_req Same
  stages-handle_client s =
      bind-Same 3 (on_client from_stream) _ _ s λ req t. by_command-Same req req.command t
