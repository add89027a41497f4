-- ===== src/Http/Server.antt =====
-- `HttpProxy` of src/http_proxy.rs, and `serve_connection` as tasks that run at once: each stops
-- where it locks the balancer or waits for the network, and any task may go on next.
pub mod Alone
pub mod Segments
pub mod Invariant
pub mod Targets
pub mod Tests
use kitty_proxy.Common.{
  ℕ, ◌+◌, ◌^◌, ◌<◌, List, [], ◌∷◌, ◌++◌, ◌≡◌, Bool, true, false, Option, none, some, length,
  if◌then◌else◌,
}
use kitty_proxy.Common.Outcome.{Outcome, ok, err, panic, ◌>>=◌, ◌>>◌, pure, lift, unwrap}
use kitty_proxy.Text.{Text, codes, text_eq}
use kitty_proxy.Types.{Address, NodeInfo, host_of_address}
use kitty_proxy.Traffic.{TrafficStreamRule}
use kitty_proxy.Balancer.{ConnectionStatsBanlancer, from_vec}
use kitty_proxy.Socks.Stream.{Stream}
use kitty_proxy.Http.Crates.{Hyper, Request}
use kitty_proxy.Http.{
  HttpEnv, HttpState, OnHttp, Response, bad_request, empty, upstream, request_host, least_node,
  incre, decre, chosen_host, spawn,
}

pub record HttpProxy : Type 0 where
  pub ip : Text
  pub port : ℕ
  pub timeout : Option ℕ
  pub banlancer : Option ConnectionStatsBanlancer
  pub is_serve : Bool

unfoldable pub new : Text → ℕ → Option ℕ → HttpProxy
new ip port timeout = record {
  ip = ip;
  port = port;
  timeout = timeout;
  banlancer = none;
  is_serve = false;
}

-- What `serve` does before it spawns the accept loop; an address that cannot be bound panics.
unfoldable pub serve :
    {E : Type 0} → (Text → ℕ → Bool) → HttpProxy → List NodeInfo → Outcome E HttpProxy
serve bind self vpn_node_infos =
    if bind self.ip self.port
    then ok (record self { banlancer = some (from_vec vpn_node_infos); is_serve = true })
    else panic

abbrev pub is_serving : HttpProxy → Bool
is_serving self = self.is_serve

abbrev pub option_to_list : {A : Type 0} → Option A → List A
option_to_list none = []
option_to_list (some a) = a ∷ []

module _ (x : Hyper) where
  -- Where a task stands that runs `serve_connection`.
  pub data Task : Type 0 where
    -- It waits for the rules and, for a proxied request, for the balancer.
    arrived : Request x → Task
    -- It waits for the connection to its target.
    chosen : Address → Bool → Option NodeInfo → Request x → Task
    -- It waits for the answer of its target.
    exchanging : Stream → Bool → Option NodeInfo → Request x → Task
    answered : Response x → Task
    -- It failed, panicked or was dropped, and had counted its connection to a node, if there is one.
    failed : x.Error → Option NodeInfo → Task
    panicked : Option NodeInfo → Task
    dropped : Option NodeInfo → Task

  -- The node whose count a task has raised and not yet lowered.
  abbrev pub counted : Task → Option NodeInfo
  counted (exchanging stream true node_info req) = none
  counted (exchanging stream false node_info req) = node_info
  counted (failed e n) = n
  counted (panicked n) = n
  counted (dropped n) = n
  counted _ = none

  settle : Option NodeInfo → Outcome x.Error Task → Task
  settle n (ok t) = t
  settle n (err e) = failed e n
  settle n panic = panicked n

  module _ (env : HttpEnv x) where
    -- Lines 373 to 386.
    pick : Bool → Address → Request x → OnHttp x Task
    pick is_direct host req = do
      node_info ← if is_direct then pure none else (do n ← least_node x env; pure (some n))
      target ← lift (chosen_host x env is_direct host node_info)
      pure (chosen target is_direct node_info req)

    -- From the start to the end of the first lock of the balancer, which only a proxied request takes.
    receive : Request x → OnHttp x Task
    unfolding pick
    receive req s = elim (request_host x req) [
      | err _ ↦ (ok (answered bad_request), s)
      | panic ↦ (panic, s)
      | ok (host, request) ↦ elim (env.traffic_stream (host_of_address host)) [
        | TrafficStreamRule.reject ↦ (ok (answered empty), s)
        | TrafficStreamRule.direct ↦ pick true host request s
        | TrafficStreamRule.proxy ↦ pick false host request s
      ]
    ]

    -- Lines 387 to 406: up to the second lock of the balancer.
    open_target : Address → Bool → Option NodeInfo → Request x → OnHttp x Task
    open_target target is_direct node_info req =
        if text_eq req.method (codes "CONNECT")
        then (do
          resp ← spawn x env (record { target_host = target; is_direct = is_direct; req = req })
          pure (answered resp))
        else (do
          stream ← lift (unwrap (env.connect target))
          if is_direct then pure tt else incre x env node_info
          pure (exchanging stream is_direct node_info req))

    -- Lines 407 to 424: up to the third lock of the balancer.
    exchange_with : Stream → Bool → Option NodeInfo → Request x → OnHttp x Task
    exchange_with stream is_direct node_info req = do
      sender ← lift (env.handshake stream)
      resp ← lift (env.send_request sender req)
      if is_direct then pure tt else decre x env node_info
      pure (answered (upstream resp))

    segment : Task → OnHttp x Task
    unfolding receive open_target exchange_with
    segment (arrived req) = receive req
    segment (chosen target is_direct node_info req) = open_target target is_direct node_info req
    segment (exchanging stream is_direct node_info req) =
        exchange_with stream is_direct node_info req
    segment t = pure t

    -- A task goes on until it stops the next time; one that has ended stays as it is.
    pub resume : Task → HttpState x → Task × HttpState x
    unfolding segment settle
    resume t s = let (r, s') = segment t s in (settle (counted t) r, s')

  pub record Server : Type 0 where
    pub shared : HttpState x
    pub tasks : List Task

  -- The nodes whose counts the tasks have raised and not lowered.
  abbrev pub live : List Task → List NodeInfo
  live [] = []
  live (t ∷ ts) = option_to_list (counted t) ++ live ts

  -- A request comes in; a task goes on, in the environment of that moment; or a task is dropped, since
  -- its client went away. Less connections are counted than a `usize` can count.
  pub data Step (checks : Bool) (s t : Server) : Type 1 where
    accepted :
        (req : Request x) → t.shared ≡ s.shared → t.tasks ≡ arrived req ∷ s.tasks → Step checks s t
    resumed :
        (env : HttpEnv x) (before after : List Task) (task : Task)
        → env.checks ≡ checks
        → length (live s.tasks) + 1 < 2 ^ 64
        → s.tasks ≡ before ++ task ∷ after
        → t.tasks ≡ before ++ (resume env task s.shared).0 ∷ after
        → t.shared ≡ (resume env task s.shared).1
        → Step checks s t
    client_gone :
        (before after : List Task) (task : Task)
        → s.tasks ≡ before ++ task ∷ after
        → t.tasks ≡ before ++ dropped (counted task) ∷ after
        → t.shared ≡ s.shared
        → Step checks s t

  -- What a proxy can come to after a call of `serve` with these nodes.
  pub data Reach (checks : Bool) (ns : List NodeInfo) : Server → Type 1 where
    serving :
        (bind : Text → ℕ → Bool) (self served : HttpProxy)
        → serve {E = x.Error} bind self ns ≡ ok served
        → Reach checks ns
            (record { shared = record { balancer = served.banlancer; tunnels = [] }; tasks = [] })
    then_step : {s t : Server} → Reach checks ns s → Step checks s t → Reach checks ns t
