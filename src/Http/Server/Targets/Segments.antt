-- ===== src/Http/Server/Targets/Segments.antt =====
-- One step of a task of src/http_proxy.rs: where the task and the tunnels that it leaves connect to.
use kitty_proxy.Common.{
  List, [], ◌≡◌, ◌≢◌, refl, subst, sym, Bool, true, false, Option, none, some, All, All-append,
  if◌then◌else◌, Bool-cases, Option-cases, inl, inr,
}
use kitty_proxy.Common.Outcome.{Outcome, ok, err, panic, continue, ◌>>=◌, lift, pure}
use kitty_proxy.Text.{codes, text_eq}
use kitty_proxy.Types.{Address, host_of_address, NodeInfo}
use kitty_proxy.Traffic.Rule.{TrafficStreamRule}
use kitty_proxy.Balancer.{
  ConnectionStatsBanlancer, incre_count_by_node_info, decre_count_by_node_info,
}
use kitty_proxy.Balancer.Serving.{HasWeight}
use kitty_proxy.Socks.Stream.{Stream}
use kitty_proxy.Http.Crates.{Hyper, Request}
use kitty_proxy.Http.{
  HttpEnv, HttpState, OnHttp, request_host, incre, decre, spawn, set_balancer, chosen_host,
}
use kitty_proxy.Http.Server.{
  Task, arrived, chosen, exchanging, answered, failed, panicked, dropped, counted, settle, resume,
  pick, open_target, exchange_with, segment, receive, Server, Reach,
}
use kitty_proxy.Http.Server.Invariant.{Reach-chosen, listed_known}
use kitty_proxy.Http.Server.Targets.{Aims, TaskAims, TunnelAims}

module _ (x : Hyper) (ns : List NodeInfo) where
  module _ (Allowed : Address → Type 0) (Dials : Address → Stream → Type 0) where
    -- The end of a segment.
    Holds : Option NodeInfo → Outcome x.Error (Task x) × HttpState x → Type 0
    Holds n p =
        All (TunnelAims x ns Allowed) p.1.tunnels × TaskAims x ns Allowed Dials (settle x n p.0)

    bind-Holds :
        {A : Type 0} (n : Option NodeInfo) (m : OnHttp x A) (f : A → OnHttp x (Task x))
        (s : HttpState x)
        → All (TunnelAims x ns Allowed) (m s).1.tunnels
        → ((a : A) (t : HttpState x) → All (TunnelAims x ns Allowed) t.tunnels → Holds n (f a t))
        → Holds n ((m >>= f) s)
    bind-Holds {A} n m f s h k = go (m s).0 (m s).1 h
      where
        go :
            (r : Outcome x.Error A) (t : HttpState x)
            → All (TunnelAims x ns Allowed) t.tunnels
            → Holds n (continue r f t)
        go (ok a) t h = k a t h
        go (err e) t h = unfold Holds settle in (h, tt)
        go panic t h = unfold Holds settle in (h, tt)

    module _ (env : HttpEnv x) where
      set_balancer-tunnels :
          (s : HttpState x) (r : Outcome x.Error ConnectionStatsBanlancer)
          → (set_balancer x env s r).1.tunnels ≡ s.tunnels
      unfolding set_balancer
      set_balancer-tunnels s (ok b) = refl
      set_balancer-tunnels s (err e) = refl
      set_balancer-tunnels s panic = refl

      incre-tunnels :
          (n : Option NodeInfo) (s : HttpState x) → (incre x env n s).1.tunnels ≡ s.tunnels
      unfolding incre
      incre-tunnels none s = refl
      incre-tunnels (some n) s = elim (Option-cases s.balancer) [
        | inl e ↦ rw e refl
        | inr (b, e) ↦ rw e (set_balancer-tunnels _ (incre_count_by_node_info env.checks b n))
      ]

      decre-tunnels :
          (n : Option NodeInfo) (s : HttpState x) → (decre x env n s).1.tunnels ≡ s.tunnels
      unfolding decre
      decre-tunnels none s = refl
      decre-tunnels (some n) s = elim (Option-cases s.balancer) [
        | inl e ↦ rw e refl
        | inr (b, e) ↦ rw e (set_balancer-tunnels _ (decre_count_by_node_info env.checks b n))
      ]

      counted-tunnels :
          (is_direct : Bool) (n : Option NodeInfo) (s : HttpState x)
          → All (TunnelAims x ns Allowed) s.tunnels
          → All
              (TunnelAims x ns Allowed)
              ((if is_direct then pure tt else incre x env n) s).1.tunnels
      counted-tunnels true n s h = h
      counted-tunnels false n s h =
          subst (All (TunnelAims x ns Allowed)) (sym (incre-tunnels n s)) h

      uncounted-tunnels :
          (is_direct : Bool) (n : Option NodeInfo) (s : HttpState x)
          → All (TunnelAims x ns Allowed) s.tunnels
          → All
              (TunnelAims x ns Allowed)
              ((if is_direct then pure tt else decre x env n) s).1.tunnels
      uncounted-tunnels true n s h = h
      uncounted-tunnels false n s h =
          subst (All (TunnelAims x ns Allowed)) (sym (decre-tunnels n s)) h

      open_target-Holds :
          (target : Address) (is_direct : Bool) (n : Option NodeInfo) (req : Request x)
          (s : HttpState x)
          → ((stream : Stream) → env.connect target ≡ some stream → Dials target stream)
          → All (TunnelAims x ns Allowed) s.tunnels
          → Aims x ns Allowed is_direct n target
          → Holds none (open_target x env target is_direct n req s)
      unfolding open_target Holds settle spawn
      open_target-Holds target is_direct n req s dials h aims =
          elim (Bool-cases (text_eq req.method (codes "CONNECT"))) [
            | inl e ↦ rw e (All-append (TunnelAims x ns Allowed) s.tunnels _ h ((n, aims), tt), tt)
            | inr e ↦ elim (Option-cases (env.connect target)) [
              | inl refused ↦ rw (e, refused) (h, tt)
              | inr (stream, made) ↦
                  rw (e, made)
                    (bind-Holds none (if is_direct then pure tt else incre x env n) _ s
                      (counted-tunnels is_direct n s h)
                      λ _ u j. (j, (target, dials stream made, aims)))
            ]
          ]

      exchange_with-Holds :
          (k : Option NodeInfo) (stream : Stream) (is_direct : Bool) (n : Option NodeInfo)
          (req : Request x) (s : HttpState x)
          → All (TunnelAims x ns Allowed) s.tunnels
          → Holds k (exchange_with x env stream is_direct n req s)
      unfolding exchange_with Holds settle
      exchange_with-Holds k stream is_direct n req s h =
          bind-Holds k (lift (env.handshake stream)) _ s h λ sender t i.
            bind-Holds k (lift (env.send_request sender req)) _ t i λ resp u j.
              bind-Holds k (if is_direct then pure tt else decre x env n) _ u
                (uncounted-tunnels is_direct n u j) λ _ v l. (l, tt)

    -- A task and the state that it leaves.
    unfoldable pub Good : Task x × HttpState x → Type 0
    Good p = All (TunnelAims x ns Allowed) p.1.tunnels × TaskAims x ns Allowed Dials p.0

    module _ (checks : Bool) (some_node : ns ≢ []) (weights : All HasWeight ns) (env : HttpEnv x)
        (allowed : (a : Address)
          → env.traffic_stream (host_of_address a) ≡ TrafficStreamRule.direct
          → Allowed a)
        (dials : (a : Address) (stream : Stream) → env.connect a ≡ some stream → Dials a stream)
        (s : Server x) (reach : Reach x checks ns s) where
      routed-Good :
          (req request : Request x) (host : Address) (rule : TrafficStreamRule)
          → All (TunnelAims x ns Allowed) s.shared.tunnels
          → request_host x req ≡ ok (host, request)
          → env.traffic_stream (host_of_address host) ≡ rule
          → Good (resume x env (arrived req) s.shared)
      unfolding resume segment receive settle Good
      routed-Good req request host TrafficStreamRule.reject h found e =
          rw (found, receive, e) (h, tt)
      routed-Good req request host TrafficStreamRule.direct h found e =
          unfold pick chosen_host in rw (found, receive, e) (h, allowed host e)
      routed-Good req request host TrafficStreamRule.proxy h found e =
          let (b, n, set, least, goes) =
            Reach-chosen x checks ns s req request host env reach some_node weights found e in
          subst (λ p. All (TunnelAims x ns Allowed) p.1.tunnels × TaskAims x ns Allowed Dials p.0)
            (sym goes) (h, (refl, listed_known x checks ns s b n reach set least.0))

      arrived-Good :
          (req : Request x) (r : Outcome (Unit {0}) (Address × Request x))
          → All (TunnelAims x ns Allowed) s.shared.tunnels
          → request_host x req ≡ r
          → Good (resume x env (arrived req) s.shared)
      arrived-Good req (ok (host, request)) h e =
          routed-Good req request host (env.traffic_stream (host_of_address host)) h e refl
      arrived-Good req (err u) h e =
          unfold resume segment receive settle Good in rw (e, receive) (h, tt)
      arrived-Good req panic h e =
          unfold resume segment receive settle Good in rw (e, receive) (h, tt)

      pub resume-Good :
          (t : Task x)
          → All (TunnelAims x ns Allowed) s.shared.tunnels
          → TaskAims x ns Allowed Dials t
          → Good (resume x env t s.shared)
      unfolding resume segment settle Good Holds
      resume-Good (arrived req) h aims = arrived-Good req (request_host x req) h refl
      resume-Good (chosen target is_direct node_info req) h aims =
          open_target-Holds env target is_direct node_info req s.shared (dials target) h aims
      resume-Good (exchanging stream is_direct node_info req) h aims =
          exchange_with-Holds env (counted x (exchanging stream is_direct node_info req)) stream
            is_direct node_info req s.shared h
      resume-Good (answered r) h aims = (h, tt)
      resume-Good (failed e n) h aims = (h, tt)
      resume-Good (panicked n) h aims = (h, tt)
      resume-Good (dropped n) h aims = (h, tt)
