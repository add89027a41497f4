-- ===== src/Socks/Client/Fits.antt =====
-- What the code of `handle_client` in src/socks_proxy.rs does to the balancer: one client leaves at
-- most one connection counted.
use kitty_proxy.Common.{
  ℕ, ◌+◌, ◌^◌, ◌<◌, List, ◌∷◌, ◌≡◌, refl, ◌∙◌, sym, Bool, true, false, Option, some, length, ◌⊎◌,
  inl, inr,
}
use kitty_proxy.Common.Outcome.{Outcome, ok, err, panic, continue, ◌>>=◌, ◌>>◌, lift, pure}
use kitty_proxy.Types.{NodeInfo, KittyProxyError, success, io, unsupported}
use kitty_proxy.Traffic.{TrafficStreamRule}
use kitty_proxy.Balancer.{from_vec, get_least_connected_node}
use kitty_proxy.Balancer.Least.{IsServing}
use kitty_proxy.Balancer.Serving.{Run-IsServing}
use kitty_proxy.Balancer.Choice.{get_least_connected_node-IsLeast}
use kitty_proxy.Socks.Calm.{Calm, send-Calm, shutdown-Calm}
use kitty_proxy.Socks.Client.Held.{Open, Open-kept, incre-Open, decre-Open}
use kitty_proxy.Socks.Client.Kept.{Kept, bind-Kept}
use kitty_proxy.Socks.Client.Calm.{forward-Calm, dialled-Calm, return_value-Calm}
use kitty_proxy.Socks.Stream.{Stream, shutdown}
use kitty_proxy.Socks.Wire.{send, socks_reply, SockCommand, connect, bind, udp_assosiate}
use kitty_proxy.Socks.Request.{SocksReq, from_stream}
use kitty_proxy.Socks.Client.{
  Env, Session, OnSession, on_client, least_node, incre, decre, target_server, host_port, socket,
  dialled, forward, relay, connect_target, dispatch, handle_client, serve_client, time_limit,
}

-- `Assumed` is what may be assumed of the clients and the nodes, if a panic is to be excluded.
module _ (env : Env) (ns : List NodeInfo) (Assumed : Type 0)
    (can_choose : Assumed → IsServing (from_vec ns)) where
  -- One client leaves at most one connection open, and nothing panics if the assumption holds.
  unfoldable pub Fits : {A : Type 0} → List NodeInfo → Outcome KittyProxyError A × Session → Type 0
  Fits live p =
      (Assumed → Calm p.0) × (Open env ns live p.1 ⊎ ((n : NodeInfo) × Open env ns (n ∷ live) p.1))

  Fits-same :
      {A B : Type 0} (live : List NodeInfo) (p : Outcome KittyProxyError A × Session)
      (q : Outcome KittyProxyError B × Session)
      → q.1.balancer ≡ p.1.balancer
      → (Calm p.0 → Calm q.0)
      → Fits live p
      → Fits live q
  unfolding Fits
  Fits-same live p q e calm (c, inl o) = (λ a. calm (c a), inl (Open-kept env ns live p.1 q.1 e o))
  Fits-same live p q e calm (c, inr (n, o)) =
      (λ a. calm (c a), inr (n, Open-kept env ns (n ∷ live) p.1 q.1 e o))

  module _ (live stage : List NodeInfo)
      (done_here : (A : Type 0) (r : Outcome KittyProxyError A) (s : Session)
        → (Assumed → Calm r)
        → Open env ns stage s
        → Fits live (r, s)) where
    bind-Fits :
        {A B : Type 0} (m : OnSession A) (f : A → OnSession B) (s : Session)
        → Kept s (m s)
        → (Assumed → Calm (m s).0)
        → Open env ns stage s
        → ((a : A) (t : Session) → Open env ns stage t → Fits live (f a t))
        → Fits live ((m >>= f) s)
    unfolding Kept
    bind-Fits {A} m f s h calm o k = go (m s).0 (m s).1 calm (Open-kept env ns stage s (m s).1 h o)
      where
        go :
            (r : Outcome KittyProxyError A) (t : Session)
            → (Assumed → Calm r)
            → Open env ns stage t
            → Fits live (continue r f t)
        go (ok a) t c o = k a t o
        go (err e) t c o = done_here _ (err e) t (λ _ p. cc) o
        go panic t c o = done_here _ panic t (λ a _. c a refl) o

  module _ (live : List NodeInfo) (room : length live + 1 < 2 ^ 64) where
    still :
        (A : Type 0) (r : Outcome KittyProxyError A) (s : Session)
        → (Assumed → Calm r)
        → Open env ns live s
        → Fits live (r, s)
    unfolding Fits
    still A r s c o = (c, inl o)

    more :
        (n : NodeInfo) (A : Type 0) (r : Outcome KittyProxyError A) (s : Session)
        → (Assumed → Calm r)
        → Open env ns (n ∷ live) s
        → Fits live (r, s)
    unfolding Fits
    more n A r s c o = (c, inr (n, o))

    incre-Fits :
        {A : Type 0} (n : NodeInfo) (f : Unit {0} → OnSession A) (s : Session)
        → Open env ns live s
        → ((t : Session) → Open env ns (n ∷ live) t → Fits live (f tt t))
        → Fits live ((incre env (some n) >>= f) s)
    incre-Fits n f s o k = let (t, e, p) = incre-Open env ns live n s room o in rw e (k t p)

    decre-Fits :
        {A : Type 0} (n : NodeInfo) (f : Unit {0} → OnSession A) (s : Session)
        → Open env ns (n ∷ live) s
        → ((t : Session) → Open env ns live t → Fits live (f tt t))
        → Fits live ((decre env (some n) >>= f) s)
    decre-Fits n f s o k = let (t, e, p) = decre-Open env ns live n s o in rw e (k t p)

    -- The node that the balancer chooses.
    least-Fits :
        {A : Type 0} (f : Option NodeInfo → OnSession A) (s : Session)
        → Open env ns live s
        → ((n : NodeInfo) (t : Session) → Open env ns live t → Fits live (f (some n) t))
        → Fits live (((do n ← least_node env; pure (some n)) >>= f) s)
    unfolding least_node Open
    least-Fits {A} f s (b, h, run) k = rw h (go (get_least_connected_node env.machine b) refl)
      where
        t : Session
        t = record s { balancer = some b }

        chooses : get_least_connected_node {E = KittyProxyError} env.machine b ≡ panic → Assumed → ⊥
        chooses e a =
            let (n, got, _) =
              get_least_connected_node-IsLeast env.machine b (Run-IsServing run (can_choose a))
                {E = KittyProxyError} in
            clash n (sym got ∙ e)
          where
            clash : (n : NodeInfo) → ◌≡◌ {A = Outcome KittyProxyError NodeInfo} (ok n) panic → ⊥
            clash n e = cc

        go :
            (r : Outcome KittyProxyError NodeInfo)
            → get_least_connected_node env.machine b ≡ r
            → Fits live ((((λ u. (r, u)) >>= (λ n. pure (some n))) >>= f) t)
        go (ok n) e = k n t (b, refl, run)
        go (err u) e = still _ (err u) t (λ a p. cc) (b, refl, run)
        go panic e = still _ panic t (λ a _. chooses e a) (b, refl, run)

    -- After the connection is made, for a direct host and for one that goes to a node.
    direct-Fits :
        (req : SocksReq) (target_stream : Stream) (s : Session)
        → Open env ns live s
        → Fits live (
            (do
              target_stream ← do on_client (send (socks_reply success)); pure target_stream
              result ← relay env target_stream
              lift result)
              s)
    unfolding Kept relay
    direct-Fits req target_stream s o =
        bind-Fits live live still (do on_client (send (socks_reply success)); pure target_stream) _
          s (bind-Kept (on_client (send (socks_reply success))) _ s refl (λ _ t. refl))
          (λ _.
            replied (send (socks_reply success) s.client).0 _
              (send-Calm (socks_reply success) s.client))
          o
          λ stream t p.
            still _ _ _ (λ _. return_value-Calm env _) (Open-kept env ns live t _ refl p)
      where
        replied :
            (r : Outcome KittyProxyError (Unit {0})) (t : Session)
            → Calm r
            → Calm (continue r (λ _ u. (ok target_stream, u)) t).0
        replied (ok a) t h = λ p. cc
        replied (err e) t h = λ p. cc
        replied panic t h = absurd (h refl)

    node-Fits :
        (req : SocksReq) (n : NodeInfo) (target_stream : Stream) (s : Session)
        → Open env ns live s
        → Fits live (
            (do
              incre env (some n)
              target_stream ← lift (forward env req.readed_buffer target_stream)
              result ← relay env target_stream
              decre env (some n)
              lift result)
              s)
    unfolding Kept relay
    node-Fits req n target_stream s o = incre-Fits n _ s o λ t p.
        bind-Fits live (n ∷ live) (more n) (lift (forward env req.readed_buffer target_stream)) _ t
          refl (λ _. forward-Calm env req.readed_buffer target_stream) p
          λ stream u q.
            decre-Fits n _ _ (Open-kept env ns (n ∷ live) u _ refl q)
              λ w i. still _ _ w (λ _. return_value-Calm env _) i

    connect_target-Fits :
        (time_out : ℕ) (is_direct : Bool) (req : SocksReq) (s : Session)
        → Open env ns live s
        → Fits live (connect_target env time_out is_direct req s)
    unfolding connect_target Kept target_server
    connect_target-Fits time_out true req s o =
        bind-Fits live live still
          (lift (dialled env (env.connect_within time_out (host_port req.host req.port)))) _ s refl
          (λ _. dialled-Calm env _) o λ target_stream t p. direct-Fits req target_stream t p
    connect_target-Fits time_out false req s o = least-Fits _ s o λ n t p.
        bind-Fits live live still
          (lift (dialled env (env.connect_within time_out (socket n.socket_addr)))) _ t refl
          (λ _. dialled-Calm env _) p λ target_stream u q. node-Fits req n target_stream u q

    dispatch-Fits :
        (time_out : Option ℕ) (req : SocksReq) (command : SockCommand) (rule : TrafficStreamRule)
        (s : Session)
        → env.traffic_stream req.host ≡ rule
        → Open env ns live s
        → Fits live (dispatch env time_out req command s)
    unfolding dispatch Kept
    dispatch-Fits time_out req connect TrafficStreamRule.reject s e o =
        rw (e, dispatch)
          (bind-Fits live live still (on_client shutdown) _ s refl (λ _. shutdown-Calm s.client) o
            λ _ t p. still _ (ok 0) t (λ _ p. cc) p)
    dispatch-Fits time_out req connect TrafficStreamRule.direct s e o =
        rw (e, dispatch) (connect_target-Fits (time_limit time_out) true req s o)
    dispatch-Fits time_out req connect TrafficStreamRule.proxy s e o =
        rw (e, dispatch) (connect_target-Fits (time_limit time_out) false req s o)
    dispatch-Fits time_out req bind rule s e o = still _ (err (io unsupported)) s (λ _ p. cc) o
    dispatch-Fits time_out req udp_assosiate rule s e o =
        still _ (err (io unsupported)) s (λ _ p. cc) o

    handle_client-Fits :
        (time_out : Option ℕ) (s : Session)
        → (Assumed → Calm (from_stream s.client).0)
        → Open env ns live s
        → Fits live (handle_client env time_out s)
    unfolding handle_client Kept
    handle_client-Fits time_out s named o =
        bind-Fits live live still (on_client from_stream) _ s refl named o
          λ req t p. dispatch-Fits time_out req req.command (env.traffic_stream req.host) t refl p

    answered-Fits :
        (time_out : Option ℕ) (s t : Session) (r : Outcome KittyProxyError ℕ)
        → handle_client env time_out s ≡ (r, t)
        → Fits live (r, t)
        → Fits live (serve_client env time_out s)
    unfolding serve_client
    answered-Fits time_out s t (ok n) e f =
        rw (e, serve_client, e) (Fits-same live (ok n, t) _ refl (λ _ p. cc) f)
    answered-Fits time_out s t (err u) e f =
        rw (e, serve_client, e) (Fits-same live (err u, t) _ refl (λ _ p. cc) f)
    answered-Fits time_out s t panic e f =
        rw (e, serve_client, e) (Fits-same live (panic, t) _ refl (λ h. absurd (h refl)) f)

    -- A round of the accept loop.
    pub serve_client-Fits :
        (time_out : Option ℕ) (s : Session)
        → (Assumed → Calm (from_stream s.client).0)
        → Open env ns live s
        → Fits live (serve_client env time_out s)
    serve_client-Fits time_out s named o =
        answered-Fits time_out s (handle_client env time_out s).1 (handle_client env time_out s).0
          refl (handle_client-Fits time_out s named o)
