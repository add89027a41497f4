-- ===== src/Http/Server/Invariant.antt =====
-- The counts of the balancer while any number of tasks run `serve_connection`, interleaved in any
-- way.
use mathlib.Core.List.{append_assoc}
use kitty_proxy.Common.{◌≢◌, All}
use kitty_proxy.Traffic.{TrafficStreamRule}
use kitty_proxy.Balancer.Serving.{HasWeight, from_vec-IsServing, Run-IsServing}
use kitty_proxy.Balancer.Choice.{IsLeast, get_least_connected_node-IsLeast}
use kitty_proxy.Types.{Address, address_of_node, host_of_address}
use kitty_proxy.Http.{request_host, least_node, chosen_host}
use kitty_proxy.Http.Server.{arrived, chosen, receive, pick}
use kitty_proxy.Common.{
  ℕ, Bool, arith, Bool-cases, inl, inr, ◌+◌, ◌^◌, ◌<◌, List, [], ◌∷◌, ◌++◌, ◌≡◌, refl, sym, ◌∙◌, ap,
  subst, true, false, Option, none, some, arith, length, if◌then◌else◌,
}
use kitty_proxy.Common.Outcome.{ok}
use kitty_proxy.Socks.Stream.{Stream}
use kitty_proxy.Types.{NodeInfo}
use kitty_proxy.Balancer.{from_vec, ConnectionStatsBanlancer}
use kitty_proxy.Balancer.Counts.{count, listed}
use kitty_proxy.Balancer.Sharing.{
  Run, done, opened, closed, start, live_count, Run-IsCounted, Run-gives_back,
}
use kitty_proxy.Http.Crates.{Hyper, Request}
use kitty_proxy.Http.{HttpEnv, HttpState, upstream, decre}
use kitty_proxy.Text.{Text}
use kitty_proxy.Http.Server.{
  HttpProxy, serve, Task, exchanging, answered, dropped, counted, settle, resume, Server, live,
  accepted, resumed, client_gone, serving, then_step, option_to_list, exchange_with, segment, Step,
  Reach,
}
use kitty_proxy.Http.Server.Segments.{Moved, kept, raised, lowered, resume-Ends}

-- A request whose host the rules call direct.
pub resume_direct :
    (x : Hyper) (env : HttpEnv x) (req request : Request x) (host : Address) (s : HttpState x)
    → request_host x req ≡ ok (host, request)
    → env.traffic_stream (host_of_address host) ≡ TrafficStreamRule.direct
    → resume x env (arrived req) s ≡ (chosen host true none request, s)
unfolding resume segment receive pick settle chosen_host
resume_direct x env req request host s found e = rw (found, receive, e) refl

module _ (x : Hyper) (checks : Bool) (ns : List NodeInfo) where
  -- The balancer and the counted connections, as seen by `Balancer.Sharing`.
  pub record IsShared (s : Server x) : Type 0 where
    pub balancer : ConnectionStatsBanlancer
    pub is_set : s.shared.balancer ≡ some balancer
    pub run : Run x.Error checks (start ns) (record { balancer = balancer; live = live x s.tasks })

  live-++ :
      (before after : List (Task x)) (t : Task x)
      → live x (before ++ t ∷ after)
        ≡ live x before ++ (option_to_list (counted x t) ++ live x after)
  live-++ [] after t = refl
  live-++ (u ∷ before) after t =
      ap (λ l. option_to_list (counted x u) ++ l) (live-++ before after t)
      ∙ sym (append_assoc (option_to_list (counted x u)) (live x before) _)

  Moved-Run :
      (before after : List NodeInfo) {b c : ConnectionStatsBanlancer} {n m : Option NodeInfo}
      → Moved x checks b n c m
      → length (before ++ (option_to_list n ++ after)) + 1 < 2 ^ 64
      → Run x.Error checks
          (start ns)
          (record { balancer = b; live = before ++ (option_to_list n ++ after) })
      → Run x.Error checks
          (start ns)
          (record { balancer = c; live = before ++ (option_to_list m ++ after) })
  Moved-Run before after (kept n) room run = run
  Moved-Run before after (raised n c e) room run =
      Run.then_step run (opened before after n room refl e refl)
  Moved-Run before after (lowered n c e) room run =
      Run.then_step run (closed before after n refl e refl)

  Step-IsShared : {s t : Server x} → Step x checks s t → IsShared s → IsShared t
  Step-IsShared {s} {t} (accepted req o e) i = record {
    balancer = i.balancer;
    is_set = ap (λ h. h.balancer) o ∙ i.is_set;
    run =
        subst
          (λ l. Run x.Error checks (start ns) (record { balancer = i.balancer; live = live x l }))
          (sym e) i.run;
  }
  Step-IsShared {s} {t} (resumed env before after task same room e e' o) i =
      let (c, set, m) = resume-Ends x checks env i.balancer task s.shared same i.is_set in
      let was = ap (live x) e ∙ live-++ before after task in
      let now = ap (live x) e' ∙ live-++ before after (resume x env task s.shared).0 in
      record {
        balancer = c;
        is_set = ap (λ h. h.balancer) o ∙ set;
        run =
            subst (λ l. Run x.Error checks (start ns) (record { balancer = c; live = l })) (sym now)
              (Moved-Run (live x before) (live x after) m
                (subst (λ l. length l + 1 < 2 ^ 64) was room)
                (subst
                  (λ l. Run x.Error checks (start ns) (record { balancer = i.balancer; live = l }))
                  was i.run));
      }
  Step-IsShared {s} {t} (client_gone before after task e e' o) i = record {
    balancer = i.balancer;
    is_set = ap (λ h. h.balancer) o ∙ i.is_set;
    run =
        subst (λ l. Run x.Error checks (start ns) (record { balancer = i.balancer; live = l }))
          (sym (
            ap (live x) e'
            ∙ live-++ before after (dropped (counted x task))
            ∙ sym (live-++ before after task)
            ∙ sym (ap (live x) e)))
          i.run;
  }

  serve-banlancer :
      (bind : Text → ℕ → Bool) (self served : HttpProxy)
      → serve {E = x.Error} bind self ns ≡ ok served
      → served.banlancer ≡ some (from_vec ns)
  unfolding serve
  serve-banlancer bind self served e = elim (Bool-cases (bind self.ip self.port)) [
    | inl b ↦ ground (arith, b, e)
    | inr b ↦ ground (arith, b, e)
  ]

  -- However the tasks that serve the requests of a proxy interleave, go away or fail, while less
  -- connections are counted than a `usize` can count: the balancer is set, and it is what some run
  -- of `Balancer.Sharing` makes of it in which the open connections are those that the tasks have
  -- counted and not given back.
  pub Reach-IsShared : {s : Server x} → Reach x checks ns s → IsShared s
  Reach-IsShared (serving bind self served e) = record {
    balancer = from_vec ns;
    is_set = serve-banlancer bind self served e;
    run = done;
  }
  Reach-IsShared (then_step reach step) = Step-IsShared step (Reach-IsShared reach)

  -- However the tasks that serve the requests of a proxy interleave, go away or fail, while less
  -- connections are counted than a `usize` can count: each node of the proxy is counted once for
  -- each task that exchanges with it, and once for each that failed, panicked or was dropped while
  -- it did; no other node is counted.
  pub Reach-count :
      (s : Server x) (b : ConnectionStatsBanlancer) (n : NodeInfo)
      → Reach x checks ns s
      → s.shared.balancer ≡ some b
      → count b n ≡ (if listed ns n then some (live_count (live x s.tasks) n) else none)
  Reach-count s b n reach e =
      let i = Reach-IsShared reach in
      let same : i.balancer ≡ b = ground (arith, i.is_set, e) in
      subst (λ c. count c n ≡ (if listed ns n then some (live_count (live x s.tasks) n) else none))
        same (Run-IsCounted x.Error ns checks _ i.run n)

  -- A node that the balancer knows is one of the list.
  pub listed_known :
      (s : Server x) (b : ConnectionStatsBanlancer) (n : NodeInfo)
      → Reach x checks ns s
      → s.shared.balancer ≡ some b
      → count b n ≢ none
      → listed ns n ≡ true
  listed_known s b n reach set known = elim (Bool-cases (listed ns n)) [
    | inl e ↦ e
    | inr e ↦ absurd (known (Reach-count s b n reach set ∙ rw e refl))
  ]

  -- In every server that a proxy can come to, the task of a proxied request that waits for the answer
  -- of its node and gets one passes it to its client: lowering the count of the node does not fail or
  -- panic.
  pub Reach-answered :
      (s : Server x) (before after : List (Task x)) (stream : Stream) (n : NodeInfo)
      (req : Request x) (env : HttpEnv x) (sender : x.Sender) (body : x.Body)
      → Reach x checks ns s
      → s.tasks ≡ before ++ exchanging stream false (some n) req ∷ after
      → env.checks ≡ checks
      → env.handshake stream ≡ ok sender
      → env.send_request sender req ≡ ok body
      → (resume x env (exchanging stream false (some n) req) s.shared).0 ≡ answered (upstream body)
  unfolding resume segment exchange_with decre settle
  Reach-answered s before after stream n req env sender body reach e same spoken sent =
      let i = Reach-IsShared reach in
      let was = ap (live x) e ∙ live-++ before after (exchanging stream false (some n) req) in
      let (b, down, _) =
        Run-gives_back x.Error ns checks _ (live x before) (live x after) n i.run was in
      rw (spoken, sent, i.is_set, same, down)

  -- In every server that a proxy can come to, with at least one node and nodes of positive weight: a
  -- request whose host the rules send to a node is given a node, the task does not panic; no other
  -- node has fewer connections for its weight, as far as they are counted at that moment.
  pub Reach-chosen :
      (s : Server x) (req request : Request x) (host : Address) (env : HttpEnv x)
      → Reach x checks ns s
      → ns ≢ []
      → All HasWeight ns
      → request_host x req ≡ ok (host, request)
      → env.traffic_stream (host_of_address host) ≡ TrafficStreamRule.proxy
      → (b : ConnectionStatsBanlancer) × (n : NodeInfo) × (s.shared.balancer ≡ some b)
        × IsLeast env.machine b n
        × (resume x env (arrived req) s.shared
            ≡ (chosen (address_of_node n) false (some n) request, s.shared))
  unfolding resume segment receive pick settle least_node chosen_host
  Reach-chosen s req request host env reach some_node weights found proxied =
      let i = Reach-IsShared reach in
      let serving = Run-IsServing i.run (from_vec-IsServing ns some_node weights) in
      let (n, got, least) =
        get_least_connected_node-IsLeast env.machine i.balancer serving {E = x.Error} in
      (i.balancer, n, i.is_set, least, rw (found, receive, proxied, i.is_set, got) refl)
