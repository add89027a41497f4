-- ===== src/Http/System/Amended.antt =====
-- Requests for IP addresses to src/http_proxy.rs, under the policy that the edits so far have made.
use kitty_proxy.Common.{
  ℕ, List, [], ◌∷◌, ◌++◌, ◌≡◌, ◌≢◌, refl, sym, ap, ◌∙◌, Bool, true, false, none, some, All, ◌⊎◌,
  inl, inr, Bool-cases, if◌then◌else◌,
}
use kitty_proxy.Common.Outcome.{ok}
use kitty_proxy.Types.{
  Host, socket_address, SocketAddr, IpAddr, v4, v6, host_of_address, address_of_node, NodeInfo,
}
use kitty_proxy.Traffic.Crates.{Deps, Order}
use kitty_proxy.Traffic.Rule.{TrafficStreamRule, direct, proxy}
use kitty_proxy.Traffic.{MatchProxy, traffic_stream}
use kitty_proxy.Traffic.Edits.{Edit, edit, edits}
use kitty_proxy.Traffic.Policy.{Policy, policy_of, amends, edits-amends}
use kitty_proxy.Balancer.{ConnectionStatsBanlancer}
use kitty_proxy.Balancer.Serving.{HasWeight}
use kitty_proxy.Balancer.Choice.{IsLeast}
use kitty_proxy.Http.Crates.{Hyper, Request}
use kitty_proxy.Http.{HttpEnv, request_host}
use kitty_proxy.Http.Server.{arrived, chosen, resume}
use kitty_proxy.Http.Server.Invariant.{Reach-chosen, resume_direct}
use kitty_proxy.Http.System.{System, Reach, serving, then_step, edited, served, made, server_Reach}

module _ (d : Deps) where
  edits-++ :
      (es : List Edit) (m : MatchProxy d) (e : Edit)
      → edits d m (es ++ e ∷ []) ≡ edit d (edits d m es) e
  unfolding edits
  edits-++ [] m e = refl
  edits-++ (f ∷ es) m e = edits-++ es (edit d m f) e

  module _ (order : Order TrafficStreamRule) (x : Hyper) (checks : Bool) (m : MatchProxy d)
      (ns : List NodeInfo) where
    pub Reach-edits :
        (s : System d order x checks) (reach : Reach d order x checks m ns s)
        → s.rules ≡ edits d m (made d order x checks reach)
    Reach-edits _ (serving bind self running e) = unfold edits in refl
    Reach-edits s (then_step {s = before} reach (edited e m' same)) =
        m'
        ∙ ap (λ r. edit d r e) (Reach-edits before reach)
        ∙ sym (edits-++ (made d order x checks reach) m e)
    Reach-edits s (then_step {s = before} reach (served step reads m')) =
        m' ∙ Reach-edits before reach

    by_ip :
        (rules : MatchProxy d) (ip : IpAddr) (port : ℕ)
        → let host = host_of_address (socket_address (record { ip = ip; port = port })) in
          traffic_stream d order rules host
          ≡ (if (policy_of d rules).is_direct host then direct else proxy)
    unfolding traffic_stream host_of_address
    by_ip rules (v4 a) port = refl
    by_ip rules (v6 a) port = refl

    by_policy :
        (s : System d order x checks) (reach : Reach d order x checks m ns s) (a : SocketAddr)
        (env : HttpEnv x) (goes : Bool)
        → ((host : Host) → env.traffic_stream host ≡ traffic_stream d order s.rules host)
        → (amends d (policy_of d m) (made d order x checks reach)).is_direct
            (host_of_address (socket_address a))
          ≡ goes
        → env.traffic_stream (host_of_address (socket_address a)) ≡ (if goes then direct else proxy)
    by_policy s reach a env goes reads e =
        reads (host_of_address (socket_address a))
        ∙ by_ip s.rules a.ip a.port
        ∙ ap
            (λ r.
              if (policy_of d r).is_direct (host_of_address (socket_address a))
              then direct
              else proxy)
            (Reach-edits s reach)
        ∙ ap
            (λ (p : Policy).
              if p.is_direct (host_of_address (socket_address a)) then direct else proxy)
            (edits-amends d (made d order x checks reach) m)
        ∙ ap (λ b. if b then direct else proxy) e

    -- However requests, tasks and edits of the rules interleave, from any rules and a list of at
    -- least one node, each of positive weight: a request for an IP address is routed by the policy that
    -- the specification of the edits, in their order so far, makes of the first rules. If that policy
    -- calls the address direct, it is connected to without a node; if not, a node of least connections
    -- for its weight is connected to and noted as the request's.
    pub Reach-amends :
        (s : System d order x checks) (reach : Reach d order x checks m ns s)
        (req request : Request x) (a : SocketAddr) (env : HttpEnv x)
        → ns ≢ []
        → All HasWeight ns
        → request_host x req ≡ ok (socket_address a, request)
        → ((host : Host) → env.traffic_stream host ≡ traffic_stream d order s.rules host)
        → let policy = amends d (policy_of d m) (made d order x checks reach) in
          ((policy.is_direct (host_of_address (socket_address a)) ≡ true)
            × (resume x env (arrived req) s.server.shared
                ≡ (chosen (socket_address a) true none request, s.server.shared)))
          ⊎ ((policy.is_direct (host_of_address (socket_address a)) ≡ false)
              × (b : ConnectionStatsBanlancer) × (n : NodeInfo) × (s.server.shared.balancer
                  ≡ some b)
              × IsLeast env.machine b n
              × (resume x env (arrived req) s.server.shared
                  ≡ (chosen (address_of_node n) false (some n) request, s.server.shared)))
    Reach-amends s reach req request a env some_node weights found reads =
        elim (Bool-cases (
          (amends d (policy_of d m) (made d order x checks reach)).is_direct
            (host_of_address (socket_address a)))) [
              | inl e ↦ inl (
                e,
                resume_direct x env req request (socket_address a) s.server.shared found
                    (by_policy s reach a env true reads e),
              )
              | inr e ↦
                  let (b, n, set, least, goes) =
                    Reach-chosen x checks ns s.server req request (socket_address a) env
                      (server_Reach d order x checks reach) some_node weights found
                      (by_policy s reach a env false reads e) in
                  inr (e, b, n, set, least, goes)
            ]
