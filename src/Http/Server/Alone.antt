-- ===== src/Http/Server/Alone.antt =====
-- A task that no other task interrupts, against `serve_connection` as one function.
use kitty_proxy.Common.{
  ℕ, zero, suc, ◌≡◌, refl, Bool, true, false, if◌then◌else◌, Bool-cases, inl, inr, Option, none,
  some,
}
use kitty_proxy.Common.Outcome.{Outcome, ok, err, panic, continue, ◌>>=◌, ◌>>◌, lift, unwrap, pure}
use kitty_proxy.Text.{codes, text_eq}
use kitty_proxy.Types.{Address, NodeInfo, host_of_address}
use kitty_proxy.Traffic.{TrafficStreamRule}
use kitty_proxy.Socks.Stream.{Stream}
use kitty_proxy.Http.Crates.{Hyper, Request}
use kitty_proxy.Http.{
  HttpEnv, HttpState, OnHttp, Response, upstream, empty, bad_request, request_host,
  serve_connection, route, forward_request, exchange, chosen_host, least_node, spawn, incre, decre,
}
use kitty_proxy.Http.Server.{
  Task, arrived, chosen, exchanging, answered, failed, panicked, counted, settle, resume, segment,
  receive, pick, open_target, exchange_with,
}

module _ (x : Hyper) where
  -- What the task has come to.
  abbrev pub result : Task x → Option (Outcome x.Error (Response x))
  result (answered response) = some (ok response)
  result (failed e n) = some (err e)
  result (panicked n) = some panic
  result _ = none

  module _ (env : HttpEnv x) where
    -- A task that goes on `k` times.
    pub alone : ℕ → Task x → HttpState x → Task x × HttpState x
    alone zero t s = (t, s)
    alone (suc k) t s = let (t', s') = resume x env t s in alone k t' s'

    Same :
        ℕ
        → Option NodeInfo
        → Outcome x.Error (Task x) × HttpState x
        → Outcome x.Error (Response x) × HttpState x
        → Type 0
    Same k n p q =
        (result (alone k (settle x n p.0) p.1).0 ≡ some q.0)
        × ((alone k (settle x n p.0) p.1).1 ≡ q.1)

    answered-Same :
        (k : ℕ) (n : Option NodeInfo) (r : Response x) (s : HttpState x)
        → Same k n (ok (answered r), s) (ok r, s)
    unfolding Same alone settle resume segment
    answered-Same zero n r s = (refl, refl)
    answered-Same (suc k) n r s = answered-Same k none r s

    failed-Same :
        (k : ℕ) (n : Option NodeInfo) (e : x.Error) (s : HttpState x)
        → Same k n (err e, s) (err e, s)
    unfolding Same alone settle resume segment
    failed-Same zero n e s = (refl, refl)
    failed-Same (suc k) n e s = failed-Same k n e s

    panicked-Same : (k : ℕ) (n : Option NodeInfo) (s : HttpState x) → Same k n (panic, s) (panic, s)
    unfolding Same alone settle resume segment
    panicked-Same zero n s = (refl, refl)
    panicked-Same (suc k) n s = panicked-Same k n s

    bind-Same :
        {A : Type 0} (k : ℕ) (n : Option NodeInfo) (m : OnHttp x A) (f : A → OnHttp x (Task x))
        (g : A → OnHttp x (Response x)) (s : HttpState x)
        → ((a : A) (t : HttpState x) → Same k n (f a t) (g a t))
        → Same k n ((m >>= f) s) ((m >>= g) s)
    bind-Same {A} k n m f g s h = go (m s).0 (m s).1
      where
        go : (r : Outcome x.Error A) (t : HttpState x) → Same k n (continue r f t) (continue r g t)
        go (ok a) t = h a t
        go (err e) t = failed-Same k n e t
        go panic t = panicked-Same k n t

    -- A task that goes on.
    resumed-Same :
        (k : ℕ) (n : Option NodeInfo) (t : Task x) (s : HttpState x)
        (q : Outcome x.Error (Response x) × HttpState x)
        → Same k (counted x t) (segment x env t s) q
        → Same (suc k) n (ok t, s) q
    unfolding Same alone settle resume
    resumed-Same k n t s q h = h

    -- What is left of `serve_connection` once the node is chosen, and once the target is reached.
    answer : Stream → Bool → Option NodeInfo → Request x → OnHttp x (Response x)
    unfolding decre
    answer stream is_direct node_info req = do
      sender ← lift (env.handshake stream)
      resp ← lift (env.send_request sender req)
      if is_direct then pure tt else decre x env node_info
      pure (upstream resp)

    respond : Address → Bool → Option NodeInfo → Request x → OnHttp x (Response x)
    respond target is_direct node_info req =
        if text_eq req.method (codes "CONNECT")
        then spawn x env (record { target_host = target; is_direct = is_direct; req = req })
        else exchange x env target is_direct node_info req

    exchange_with-Same :
        (n : Option NodeInfo) (stream : Stream) (is_direct : Bool) (node_info : Option NodeInfo)
        (req : Request x) (s : HttpState x)
        → Same 0 n
            (exchange_with x env stream is_direct node_info req s)
            (answer stream is_direct node_info req s)
    unfolding exchange_with answer
    exchange_with-Same n stream is_direct node_info req s =
        bind-Same 0 n (lift (env.handshake stream)) _ _ s λ sender t.
          bind-Same 0 n (lift (env.send_request sender req)) _ _ t λ resp u.
            bind-Same 0 n (if is_direct then pure tt else decre x env node_info) _ _ u
              λ _ v. answered-Same 0 n (upstream resp) v

    open_target-Same :
        (target : Address) (is_direct : Bool) (node_info : Option NodeInfo) (req : Request x)
        (s : HttpState x)
        → Same 1 none
            (open_target x env target is_direct node_info req s)
            (respond target is_direct node_info req s)
    unfolding open_target respond exchange segment answer spawn
    open_target-Same target is_direct node_info req s =
        elim (Bool-cases (text_eq req.method (codes "CONNECT"))) [
          | inl e ↦ rw e (answered-Same 1 none empty _)
          | inr e ↦ rw e (
              bind-Same 1 none (lift (unwrap (env.connect target))) _ _ s λ stream t.
                bind-Same 1 none (if is_direct then pure tt else incre x env node_info) _ _ t λ _ u.
                  resumed-Same 0 none (exchanging stream is_direct node_info req) u _
                    (exchange_with-Same _ stream is_direct node_info req u))
        ]

    pick-Same :
        (is_direct : Bool) (host : Address) (req : Request x) (s : HttpState x)
        → Same 2 none (pick x env is_direct host req s) (forward_request x env is_direct host req s)
    unfolding pick forward_request respond segment
    pick-Same is_direct host req s =
        bind-Same 2 none (if is_direct then pure none else (do n ← least_node x env; pure (some n)))
          _ _ s
          λ node_info t.
            bind-Same 2 none (lift (chosen_host x env is_direct host node_info)) _ _ t λ target u.
              resumed-Same 1 none (chosen target is_direct node_info req) u _
                (open_target-Same target is_direct node_info req u)

    routed-Same :
        (host : Address) (found req : Request x) (s : HttpState x) (rule : TrafficStreamRule)
        → request_host x req ≡ ok (host, found)
        → env.traffic_stream (host_of_address host) ≡ rule
        → Same 2 none (receive x env req s) (serve_connection x env req s)
    unfolding receive serve_connection route
    routed-Same host found req s TrafficStreamRule.reject e r =
        rw (e, receive, serve_connection, r, route) (answered-Same 2 none empty s)
    routed-Same host found req s TrafficStreamRule.direct e r =
        rw (e, receive, serve_connection, r, route) (pick-Same true host found s)
    routed-Same host found req s TrafficStreamRule.proxy e r =
        rw (e, receive, serve_connection, r, route) (pick-Same false host found s)

    receive-Same :
        (req : Request x) (s : HttpState x) (r : Outcome (Unit {0}) (Address × Request x))
        → request_host x req ≡ r
        → Same 2 none (receive x env req s) (serve_connection x env req s)
    unfolding receive serve_connection
    receive-Same req s (ok (host, found)) e = routed-Same host found req s _ e refl
    receive-Same req s (err u) e =
        rw (e, receive, serve_connection) (answered-Same 2 none bad_request s)
    receive-Same req s panic e = rw (e, receive, serve_connection) (panicked-Same 2 none s)

    -- A task that no other one interrupts, from any shared state, ends after it has gone on three
    -- times: with the result of `serve_connection`, and with the state that `serve_connection` leaves.
    pub alone-serve_connection :
        (req : Request x) (s : HttpState x)
        → (result (alone 3 (arrived req) s).0 ≡ some (serve_connection x env req s).0)
          × ((alone 3 (arrived req) s).1 ≡ (serve_connection x env req s).1)
    unfolding alone resume segment Same
    alone-serve_connection req s = receive-Same req s (request_host x req) refl
