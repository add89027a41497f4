-- ===== src/Socks/Client/Stages/Dropped.antt =====
-- The balancer when a client of src/socks_proxy.rs is dropped at any of its stages.
use kitty_proxy.Common.{
  ℕ, zero, suc, ◌+◌, ◌^◌, ◌<◌, List, ◌∷◌, ◌≡◌, refl, Bool, true, false, Option, none, some, length,
  ◌⊎◌, inl, inr,
}
use kitty_proxy.Common.Outcome.{Outcome, ok, err, panic, continue, ◌>>=◌, ◌>>◌, lift, pure}
use kitty_proxy.Types.{NodeInfo, KittyProxyError, success}
use kitty_proxy.Traffic.{TrafficStreamRule}
use kitty_proxy.Balancer.{get_least_connected_node}
use kitty_proxy.Socks.Stream.{Stream, shutdown}
use kitty_proxy.Socks.Wire.{send, socks_reply, SockCommand, connect, bind, udp_assosiate}
use kitty_proxy.Socks.Request.{SocksReq, from_stream}
use kitty_proxy.Socks.Client.{
  Env, Session, OnSession, TargetServer, on_client, least_node, incre, decre, target_server,
  dialled, forward, relay, time_limit,
}
use kitty_proxy.Socks.Client.Held.{Open, Open-kept, incre-Open, decre-Open}
use kitty_proxy.Socks.Client.Kept.{Kept, bind-Kept}
use kitty_proxy.Socks.Client.Stages.{
  Stage, reading, dialling, replying, copying, finished, stage_after, choose, by_command, read_req,
  dial, greet, copy, work, go_on, stages,
}

module _ (env : Env) (ns : List NodeInfo) (time_out : Option ℕ) where
  -- One connection more at most.
  abbrev pub OneMore : List NodeInfo → Session → Type 0
  OneMore live s = Open env ns live s ⊎ ((n : NodeInfo) × Open env ns (n ∷ live) s)

  -- What is counted for a client at a stage, over the connections before it.
  abbrev pub At : List NodeInfo → Stage → Session → Type 0
  At live reading s = Open env ns live s
  At live (dialling true req n target) s = Open env ns live s
  At live (dialling false req none target) s = ⊥
  At live (dialling false req (some n) target) s = Open env ns live s
  At live (replying true req n target) s = Open env ns live s
  At live (replying false req none target) s = ⊥
  At live (replying false req (some n) target) s = Open env ns (n ∷ live) s
  At live (copying true n target) s = Open env ns live s
  At live (copying false none target) s = ⊥
  At live (copying false (some n) target) s = Open env ns (n ∷ live) s
  At live (finished (ok moved)) s = Open env ns live s
  At live (finished (err e)) s = OneMore live s
  At live (finished panic) s = OneMore live s

  module _ (live : List NodeInfo) (room : length live + 1 < 2 ^ 64) where
    -- The end of a stage.
    Comes : Outcome KittyProxyError Stage × Session → Type 0
    Comes p = At live (stage_after p.0) p.1

    bind-Comes :
        {A : Type 0} (held : List NodeInfo)
        (here : (s : Session) → Open env ns held s → OneMore live s) (m : OnSession A)
        (f : A → OnSession Stage) (s : Session)
        → Kept s (m s)
        → Open env ns held s
        → ((a : A) (t : Session) → Open env ns held t → Comes (f a t))
        → Comes ((m >>= f) s)
    unfolding Kept
    bind-Comes {A} held here m f s kept o k =
        go (m s).0 (m s).1 (Open-kept env ns held s (m s).1 kept o)
      where
        go :
            (r : Outcome KittyProxyError A) (t : Session)
            → Open env ns held t
            → Comes (continue r f t)
        go (ok a) t o = k a t o
        go (err e) t o = unfold Comes stage_after in here t o
        go panic t o = unfold Comes stage_after in here t o

    incre-Comes :
        (n : NodeInfo) (f : Unit {0} → OnSession Stage) (s : Session)
        → Open env ns live s
        → ((t : Session) → Open env ns (n ∷ live) t → Comes (f tt t))
        → Comes ((incre env (some n) >>= f) s)
    incre-Comes n f s o k = let (t, e, p) = incre-Open env ns live n s room o in rw e (k t p)

    decre-Comes :
        (n : NodeInfo) (f : Unit {0} → OnSession Stage) (s : Session)
        → Open env ns (n ∷ live) s
        → ((t : Session) → Open env ns live t → Comes (f tt t))
        → Comes ((decre env (some n) >>= f) s)
    decre-Comes n f s o k = let (t, e, p) = decre-Open env ns live n s o in rw e (k t p)

    same : (s : Session) → Open env ns live s → OneMore live s
    same s o = inl o

    more : (n : NodeInfo) (s : Session) → Open env ns (n ∷ live) s → OneMore live s
    more n s o = inr (n, o)

    choose-Comes :
        (is_direct : Bool) (req : SocksReq) (s : Session)
        → Open env ns live s
        → Comes (choose env time_out is_direct req s)
    unfolding choose target_server Comes stage_after least_node Open
    choose-Comes true req s o = o
    choose-Comes false req s (b, h, run) = rw h (go (get_least_connected_node env.machine b))
      where
        go :
            (r : Outcome KittyProxyError NodeInfo)
            → Comes (
                ((((λ u. (r, u)) >>= (λ n. pure (some n))) >>= (λ node_info.
                    lift (target_server env false req node_info)
                    >>= (λ target. pure (dialling false req node_info target)))))
                  (record s { balancer = some b }))
        go (ok n) = (b, refl, run)
        go (err e) = inl (b, refl, run)
        go panic = inl (b, refl, run)

    by_command-Comes :
        (req : SocksReq) (command : SockCommand) (rule : TrafficStreamRule) (s : Session)
        → env.traffic_stream req.host ≡ rule
        → Open env ns live s
        → Comes (by_command env time_out req command s)
    unfolding by_command Kept
    by_command-Comes req connect TrafficStreamRule.reject s e o =
        rw (e, by_command)
          (bind-Comes live same (on_client shutdown) _ s refl o
            λ _ t p. unfold Comes stage_after in p)
    by_command-Comes req connect TrafficStreamRule.direct s e o =
        rw (e, by_command) (choose-Comes true req s o)
    by_command-Comes req connect TrafficStreamRule.proxy s e o =
        rw (e, by_command) (choose-Comes false req s o)
    by_command-Comes req bind rule s e o = unfold Comes stage_after in inl o
    by_command-Comes req udp_assosiate rule s e o = unfold Comes stage_after in inl o

    dial-Comes :
        (is_direct : Bool) (req : SocksReq) (n : Option NodeInfo) (target : TargetServer)
        (s : Session)
        → At live (dialling is_direct req n target) s
        → Comes (dial env time_out is_direct req n target s)
    unfolding dial Kept Comes stage_after
    dial-Comes true req n target s o =
        bind-Comes live same (lift (dialled env (env.connect_within (time_limit time_out) target)))
          _ s refl o λ stream t p. p
    dial-Comes false req none target s o = absurd o
    dial-Comes false req (some n) target s o =
        bind-Comes live same (lift (dialled env (env.connect_within (time_limit time_out) target)))
          _ s refl o λ stream t p. incre-Comes n _ t p λ u q. q

    greet-Comes :
        (is_direct : Bool) (req : SocksReq) (n : Option NodeInfo) (target : Stream) (s : Session)
        → At live (replying is_direct req n target) s
        → Comes (greet env time_out is_direct req n target s)
    unfolding greet Kept Comes stage_after
    greet-Comes true req n target s o =
        bind-Comes live same (do on_client (send (socks_reply success)); pure target) _ s
          (bind-Kept (on_client (send (socks_reply success))) _ s refl (λ _ t. refl)) o
          λ stream t p. p
    greet-Comes false req none target s o = absurd o
    greet-Comes false req (some n) target s o =
        bind-Comes (n ∷ live) (more n) (lift (forward env req.readed_buffer target)) _ s refl o
          λ stream t p. p

    relay-Kept : (target : Stream) (s : Session) → Kept s (relay env target s)
    unfolding relay Kept
    relay-Kept target s = refl

    over :
        (r : Outcome KittyProxyError ℕ) (s : Session)
        → Open env ns live s
        → Comes (ok (finished r), s)
    unfolding Comes stage_after
    over (ok moved) s o = o
    over (err e) s o = inl o
    over panic s o = inl o

    copy-Comes :
        (is_direct : Bool) (n : Option NodeInfo) (target : Stream) (s : Session)
        → At live (copying is_direct n target) s
        → Comes (copy env time_out is_direct n target s)
    unfolding copy
    copy-Comes true n target s o =
        bind-Comes live same (relay env target) (λ result. pure (finished result)) s
          (relay-Kept target s) o λ result t p. over result t p
    copy-Comes false none target s o = absurd o
    copy-Comes false (some n) target s o =
        bind-Comes (n ∷ live) (more n) (relay env target)
          (λ result. decre env (some n) >>= λ _. pure (finished result)) s (relay-Kept target s) o
          λ result t p. decre-Comes n (λ _. pure (finished result)) t p λ u q. over result u q

    go_on-At :
        (stage : Stage) (s : Session)
        → At live stage s
        → At live (go_on env time_out stage s).0 (go_on env time_out stage s).1
    unfolding go_on work Comes read_req Kept
    go_on-At reading s o =
        bind-Comes live same (on_client from_stream) _ s refl o
          λ req t p. by_command-Comes req req.command (env.traffic_stream req.host) t refl p
    go_on-At (dialling is_direct req n target) s o = dial-Comes is_direct req n target s o
    go_on-At (replying is_direct req n target) s o = greet-Comes is_direct req n target s o
    go_on-At (copying is_direct n target) s o = copy-Comes is_direct n target s o
    go_on-At (finished r) s o = unfold stage_after in o

    pub stages-At :
        (k : ℕ) (stage : Stage) (s : Session)
        → At live stage s
        → At live (stages env time_out k stage s).0 (stages env time_out k stage s).1
    unfolding stages
    stages-At zero stage s o = o
    stages-At (suc k) stage s o =
        stages-At k (go_on env time_out stage s).0 (go_on env time_out stage s).1
          (go_on-At stage s o)
