-- ===== src/Http/Server/Segments.antt =====
-- What a task of src/http_proxy.rs does to the balancer from one stop to the next.
use kitty_proxy.Common.{
  ◌≡◌, refl, ap, subst, Bool, true, false, Option, none, some, if◌then◌else◌, Bool-cases, inl, inr,
}
use kitty_proxy.Common.Outcome.{Outcome, ok, err, panic, continue, ◌>>=◌, ◌>>◌, lift, pure, unwrap}
use kitty_proxy.Text.{codes, text_eq}
use kitty_proxy.Traffic.{TrafficStreamRule}
use kitty_proxy.Socks.Stream.{Stream}
use kitty_proxy.Types.{NodeInfo, Address, host_of_address}
use kitty_proxy.Balancer.{
  ConnectionStatsBanlancer, incre_count_by_node_info, decre_count_by_node_info,
  get_least_connected_node,
}
use kitty_proxy.Http.Crates.{Hyper, Request}
use kitty_proxy.Http.{
  HttpEnv, HttpState, OnHttp, upstream, request_host, least_node, incre, decre, chosen_host, spawn,
  set_balancer,
}
use kitty_proxy.Http.Server.{
  Task, arrived, chosen, exchanging, answered, failed, panicked, dropped, counted, settle, resume,
  pick, open_target, exchange_with, segment, receive,
}

module _ (x : Hyper) (checks : Bool) where
  -- What a task that goes on does to the balancer `b` and to the node that it has counted.
  pub data Moved (b : ConnectionStatsBanlancer)
      : Option NodeInfo → ConnectionStatsBanlancer → Option NodeInfo → Type 0 where
    kept : (n : Option NodeInfo) → Moved b n b n
    raised :
        (n : NodeInfo) (c : ConnectionStatsBanlancer)
        → incre_count_by_node_info {E = x.Error} checks b n ≡ ok c
        → Moved b none c (some n)
    lowered :
        (n : NodeInfo) (c : ConnectionStatsBanlancer)
        → decre_count_by_node_info {E = x.Error} checks b n ≡ ok c
        → Moved b (some n) c none

  -- The end of a segment that began with the balancer `b` and the counted node `n`.
  Ends :
      ConnectionStatsBanlancer → Option NodeInfo → Outcome x.Error (Task x) × HttpState x → Type 0
  Ends b n p =
      (c : ConnectionStatsBanlancer) × (p.1.balancer ≡ some c)
      × Moved b n c (counted x (settle x n p.0))

  module _ (b : ConnectionStatsBanlancer) (n : Option NodeInfo) where
    failed-Ends : (e : x.Error) (s : HttpState x) → s.balancer ≡ some b → Ends b n (err e, s)
    unfolding Ends settle
    failed-Ends e s h = (b, h, kept n)

    panicked-Ends : (s : HttpState x) → s.balancer ≡ some b → Ends b n (panic, s)
    unfolding Ends settle
    panicked-Ends s h = (b, h, kept n)

    bind-Ends :
        {A : Type 0} (m : OnHttp x A) (f : A → OnHttp x (Task x)) (s : HttpState x)
        → (m s).1.balancer ≡ some b
        → ((a : A) (t : HttpState x) → t.balancer ≡ some b → Ends b n (f a t))
        → Ends b n ((m >>= f) s)
    bind-Ends {A} m f s h k = go (m s).0 (m s).1 h
      where
        go :
            (r : Outcome x.Error A) (t : HttpState x)
            → t.balancer ≡ some b
            → Ends b n (continue r f t)
        go (ok a) t h = k a t h
        go (err e) t h = failed-Ends e t h
        go panic t h = panicked-Ends t h

  module _ (env : HttpEnv x) (same : env.checks ≡ checks) (b : ConnectionStatsBanlancer) where
    continue-keeps :
        {A B : Type 0} (r : Outcome x.Error A) (f : A → B) (s : HttpState x)
        → (continue r (λ a t. (ok (f a), t)) s).1 ≡ s
    continue-keeps (ok a) f s = refl
    continue-keeps (err e) f s = refl
    continue-keeps panic f s = refl

    least_node-keeps :
        (is_direct : Bool) (s : HttpState x)
        → s.balancer ≡ some b
        → ((if is_direct then pure none else (do n ← least_node x env; pure (some n))) s).1.balancer
          ≡ some b
    unfolding least_node
    least_node-keeps true s h = h
    least_node-keeps false s h = rw h (
        ap (λ t. t.balancer)
          (continue-keeps (get_least_connected_node env.machine b) some
            (record s { balancer = some b })))

    pick-Ends :
        (is_direct : Bool) (host : Address) (req : Request x) (s : HttpState x)
        → s.balancer ≡ some b
        → Ends b none (pick x env is_direct host req s)
    unfolding pick Ends settle
    pick-Ends is_direct host req s h =
        bind-Ends b none (if is_direct then pure none else (do n ← least_node x env; pure (some n)))
          _ s (least_node-keeps is_direct s h)
          λ node_info t i.
            bind-Ends b none (lift (chosen_host x env is_direct host node_info)) _ t i
              λ target u j. (b, j, kept none)

    routed-Ends :
        (host : Address) (found req : Request x) (s : HttpState x) (rule : TrafficStreamRule)
        → s.balancer ≡ some b
        → request_host x req ≡ ok (host, found)
        → env.traffic_stream (host_of_address host) ≡ rule
        → Ends b none (receive x env req s)
    unfolding receive Ends settle
    routed-Ends host found req s TrafficStreamRule.reject h e r =
        rw (e, receive, r) (b, h, kept none)
    routed-Ends host found req s TrafficStreamRule.direct h e r =
        rw (e, receive, r) (pick-Ends true host found s h)
    routed-Ends host found req s TrafficStreamRule.proxy h e r =
        rw (e, receive, r) (pick-Ends false host found s h)

    receive-Ends :
        (req : Request x) (s : HttpState x) (r : Outcome (Unit {0}) (Address × Request x))
        → s.balancer ≡ some b
        → request_host x req ≡ r
        → Ends b none (receive x env req s)
    unfolding receive Ends settle
    receive-Ends req s (ok (host, found)) h e = routed-Ends host found req s _ h e refl
    receive-Ends req s (err u) h e = rw (e, receive) (b, h, kept none)
    receive-Ends req s panic h e = rw (e, receive) (b, h, kept none)

    incre-Ends :
        (stream : Stream) (n : NodeInfo) (req : Request x) (s : HttpState x)
        (r : Outcome x.Error ConnectionStatsBanlancer)
        → s.balancer ≡ some b
        → incre_count_by_node_info env.checks b n ≡ r
        → Ends b none (
            continue
              (set_balancer x env s r).0
              (λ _. pure (exchanging stream false (some n) req))
              (set_balancer x env s r).1)
    unfolding set_balancer Ends settle
    incre-Ends stream n req s (ok c) h e = (
      c,
      refl,
      raised n c (subst (λ k. incre_count_by_node_info {E = x.Error} k b n ≡ ok c) same e),
    )
    incre-Ends stream n req s (err u) h e = (b, h, kept none)
    incre-Ends stream n req s panic h e = (b, h, kept none)

    opened-Ends :
        (stream : Stream) (is_direct : Bool) (node_info : Option NodeInfo) (req : Request x)
        (s : HttpState x)
        → s.balancer ≡ some b
        → Ends b none (
            ((if is_direct then pure tt else incre x env node_info)
                >> pure (exchanging stream is_direct node_info req))
              s)
    unfolding incre
    opened-Ends stream true node_info req s h = unfold Ends settle in (b, h, kept none)
    opened-Ends stream false none req s h = panicked-Ends b none s h
    opened-Ends stream false (some n) req s h = rw h (
        incre-Ends stream n req (record s { balancer = some b })
          (incre_count_by_node_info env.checks b n) refl refl)

    open_target-Ends :
        (target : Address) (is_direct : Bool) (node_info : Option NodeInfo) (req : Request x)
        (s : HttpState x)
        → s.balancer ≡ some b
        → Ends b none (open_target x env target is_direct node_info req s)
    unfolding open_target Ends settle spawn
    open_target-Ends target is_direct node_info req s h =
        elim (Bool-cases (text_eq req.method (codes "CONNECT"))) [
          | inl e ↦ rw e (b, h, kept none)
          | inr e ↦ rw e (
              bind-Ends b none (lift (unwrap (env.connect target))) _ s h
                λ stream t i. opened-Ends stream is_direct node_info req t i)
        ]

    decre-Ends :
        (n : NodeInfo) (body : x.Body) (s : HttpState x)
        (r : Outcome x.Error ConnectionStatsBanlancer)
        → s.balancer ≡ some b
        → decre_count_by_node_info env.checks b n ≡ r
        → Ends b (some n) (
            continue
              (set_balancer x env s r).0
              (λ _. pure (answered (upstream body)))
              (set_balancer x env s r).1)
    unfolding set_balancer Ends settle
    decre-Ends n body s (ok c) h e = (
      c,
      refl,
      lowered n c (subst (λ k. decre_count_by_node_info {E = x.Error} k b n ≡ ok c) same e),
    )
    decre-Ends n body s (err u) h e = (b, h, kept (some n))
    decre-Ends n body s panic h e = (b, h, kept (some n))

    closed-Ends :
        (stream : Stream) (is_direct : Bool) (node_info : Option NodeInfo) (req : Request x)
        (body : x.Body) (s : HttpState x)
        → s.balancer ≡ some b
        → Ends b (counted x (exchanging stream is_direct node_info req)) (
            ((if is_direct then pure tt else decre x env node_info)
                >> pure (answered (upstream body)))
              s)
    unfolding decre
    closed-Ends stream true node_info req body s h = unfold Ends settle in (b, h, kept none)
    closed-Ends stream false none req body s h = panicked-Ends b none s h
    closed-Ends stream false (some n) req body s h = rw h (
        decre-Ends n body (record s { balancer = some b }) (decre_count_by_node_info env.checks b n)
          refl refl)

    segment-Ends :
        (t : Task x) (s : HttpState x)
        → s.balancer ≡ some b
        → Ends b (counted x t) (segment x env t s)
    unfolding segment exchange_with
    segment-Ends (arrived req) s h = receive-Ends req s (request_host x req) h refl
    segment-Ends (chosen target is_direct node_info req) s h =
        open_target-Ends target is_direct node_info req s h
    segment-Ends (exchanging stream is_direct node_info req) s h =
        bind-Ends b _ (lift (env.handshake stream)) _ s h λ sender t i.
          bind-Ends b _ (lift (env.send_request sender req)) _ t i
            λ body u j. closed-Ends stream is_direct node_info req body u j
    segment-Ends (answered r) s h = unfold Ends settle in (b, h, kept none)
    segment-Ends (failed e n) s h = unfold Ends settle in (b, h, kept n)
    segment-Ends (panicked n) s h = unfold Ends settle in (b, h, kept n)
    segment-Ends (dropped n) s h = unfold Ends settle in (b, h, kept n)

  pub resume-Ends :
      (env : HttpEnv x) (b : ConnectionStatsBanlancer) (t : Task x) (s : HttpState x)
      → env.checks ≡ checks
      → s.balancer ≡ some b
      → (c : ConnectionStatsBanlancer) × ((resume x env t s).1.balancer ≡ some c)
        × Moved b (counted x t) c (counted x (resume x env t s).0)
  unfolding resume Ends
  resume-Ends env b t s same h = segment-Ends env same b t s h
