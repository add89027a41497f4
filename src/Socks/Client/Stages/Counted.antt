-- ===== src/Socks/Client/Stages/Counted.antt =====
-- What the balancer counts while `handle_client` in src/socks_proxy.rs stands at a stage, and after it.
use kitty_proxy.Common.{
  ℕ, ◌+◌, ◌^◌, ◌<◌, ◌≤◌, List, [], ◌∷◌, ◌++◌, ◌≡◌, refl, sym, ◌∙◌, ap, subst, true, false, Option,
  none, some, arith, length, if◌then◌else◌, inl, inr,
}
use kitty_proxy.Common.Outcome.{ok, err, panic}
use kitty_proxy.Types.{NodeInfo, KittyProxyError}
use kitty_proxy.Balancer.{ConnectionStatsBanlancer}
use kitty_proxy.Balancer.Counts.{count, listed}
use kitty_proxy.Balancer.Sharing.{Run, start, live_count, Run-IsCounted}
use kitty_proxy.Socks.Stream.{Stream}
use kitty_proxy.Socks.Client.{Env, Session, handle_client}
use kitty_proxy.Socks.Client.Held.{Open}
use kitty_proxy.Socks.Client.Stages.{Stage, reading, dialling, replying, copying, finished, stages}
use kitty_proxy.Socks.Client.Stages.Whole.{stages-handle_client}
use kitty_proxy.Socks.Client.Stages.Dropped.{At, stages-At}

-- The connections that a client has to nodes at a stage: one from the reply on, and none once it has
-- come to a result. If it has failed, one can be left.
abbrev pub Has : Stage → List NodeInfo → Type 0
Has (replying false req (some n) target) extra = extra ≡ n ∷ []
Has (copying false (some n) target) extra = extra ≡ n ∷ []
Has (finished (err e)) extra = length extra ≤ 1
Has (finished panic) extra = length extra ≤ 1
Has _ extra = extra ≡ []

module _ (env : Env) (ns : List NodeInfo) (live : List NodeInfo) where
  -- The balancer counts these connections, over those before the client.
  pub record Counts (stage : Stage) (s : Session) : Type 0 where
    pub after : ConnectionStatsBanlancer
    pub extra : List NodeInfo
    pub is_set : s.balancer ≡ some after
    pub has : Has stage extra
    pub counted :
        (n : NodeInfo)
        → count after n ≡ (if listed ns n then some (live_count (extra ++ live) n) else none)

  counts :
      (stage : Stage) (s : Session) (extra : List NodeInfo)
      → Has stage extra
      → Open env ns (extra ++ live) s
      → Counts stage s
  unfolding Open
  counts stage s extra has (b, e, run) = record {
    after = b;
    extra = extra;
    is_set = e;
    has = has;
    counted =
        Run-IsCounted KittyProxyError ns env.checks (record { balancer = b; live = extra ++ live })
          run;
  }

  At-Counts :
      (time_out : Option ℕ) (stage : Stage) (s : Session)
      → At env ns time_out live stage s
      → Counts stage s
  At-Counts time_out reading s o = counts _ s [] refl o
  At-Counts time_out (dialling true req n target) s o = counts _ s [] refl o
  At-Counts time_out (dialling false req none target) s o = absurd o
  At-Counts time_out (dialling false req (some n) target) s o = counts _ s [] refl o
  At-Counts time_out (replying true req n target) s o = counts _ s [] refl o
  At-Counts time_out (replying false req none target) s o = absurd o
  At-Counts time_out (replying false req (some n) target) s o = counts _ s (n ∷ []) refl o
  At-Counts time_out (copying true n target) s o = counts _ s [] refl o
  At-Counts time_out (copying false none target) s o = absurd o
  At-Counts time_out (copying false (some n) target) s o = counts _ s (n ∷ []) refl o
  At-Counts time_out (finished (ok moved)) s o = counts _ s [] refl o
  At-Counts time_out (finished (err e)) s (inl o) = counts _ s [] (omega arith) o
  At-Counts time_out (finished (err e)) s (inr (n, o)) = counts _ s (n ∷ []) (omega arith) o
  At-Counts time_out (finished panic) s (inl o) = counts _ s [] (omega arith) o
  At-Counts time_out (finished panic) s (inr (n, o)) = counts _ s (n ∷ []) (omega arith) o

  module _ (room : length live + 1 < 2 ^ 64) (time_out : Option ℕ) (client : Stream)
      (b : ConnectionStatsBanlancer)
      (run : Run KittyProxyError env.checks (start ns) (record { balancer = b; live = live })) where
    -- Wherever a client of the proxy stands or is dropped, after any number of stages, from a balancer
    -- that counts the connections that are open, fewer than a `usize` can count: its connection to a
    -- node is counted, over the others, exactly from the end of the dial to the end of the copy; a
    -- client that has come to a result is not counted any more, and one that has failed leaves at most
    -- one connection counted.
    pub stages-Counts :
        (k : ℕ)
        → let (stage, s) =
            stages env time_out k reading (record { client = client; balancer = some b }) in
          Counts stage s
    unfolding Open
    stages-Counts k =
        At-Counts time_out _ _ (stages-At env ns time_out live room k reading _ (b, refl, run))

    -- Whenever `handle_client` returns without an error, whatever the client asked for, from a balancer
    -- that counts the connections that are open, fewer than a `usize` can count, every node is counted
    -- as often as before.
    pub handle_client-count :
        (t : Session) (moved : ℕ)
        → handle_client env time_out (record { client = client; balancer = some b }) ≡ (ok moved, t)
        → (c : ConnectionStatsBanlancer) × (t.balancer ≡ some c)
          × ((n : NodeInfo) → count c n ≡ count b n)
    handle_client-count t moved h =
        let after : Counts (finished (ok moved)) t =
          subst (λ p. Counts p.0 p.1)
            (stages-handle_client env time_out _ ∙ ap (λ q. (finished q.0, q.1)) h)
            (stages-Counts 4) in
        (
          after.after,
          after.is_set,
          λ n.
              after.counted n
              ∙ ap (λ es. if listed ns n then some (live_count (es ++ live) n) else none) after.has
              ∙ sym (
                  Run-IsCounted KittyProxyError ns env.checks (record { balancer = b; live = live })
                    run n),
        )
