-- ===== src/Socks/Client/Serving.antt =====
-- When the accept loop of src/socks_proxy.rs goes on for ever.
use kitty_proxy.Common.{
  ℕ, ◌+◌, ◌^◌, ◌<◌, List, [], ◌∷◌, ◌≡◌, ◌≢◌, refl, ap, sym, subst, Bool, ◌≤◌, inl, inr, Option,
  some, arith, length, All,
}
use kitty_proxy.Common.Outcome.{Outcome, ok, err, panic}
use kitty_proxy.Types.{NodeInfo, KittyProxyError}
use kitty_proxy.Balancer.{ConnectionStatsBanlancer, from_vec}
use kitty_proxy.Balancer.Least.{IsServing}
use kitty_proxy.Balancer.Serving.{HasWeight, from_vec-IsServing}
use kitty_proxy.Balancer.Sharing.{done, start, Run}
use kitty_proxy.Socks.Stream.{Stream}
use kitty_proxy.Socks.Request.Panics.{IsMisnamed, from_stream-IsMisnamed}
use kitty_proxy.Socks.Client.{Env, Session, handle_client, serve_client, serve, Arrival, client}
use kitty_proxy.Socks.Client.Held.{Open}
use kitty_proxy.Socks.Calm.{Calm}
use kitty_proxy.Socks.Client.Fits.{Fits, serve_client-Fits}

-- Every client is served, one after the other, with the balancer that the one before has left.
pub serve_each :
    Option ℕ
    → List (Env × Stream)
    → Option ConnectionStatsBanlancer
    → List Stream × Option ConnectionStatsBanlancer
serve_each time_out [] b = ([], b)
serve_each time_out ((env, c) ∷ cs) b =
    let s = (serve_client env time_out (record { client = c; balancer = b })).1 in
    let rest = serve_each time_out cs s.balancer in (s.client ∷ rest.0, rest.1)

-- Nothing but clients arrives.
pub arrive : List (Env × Stream) → List Arrival
arrive [] = []
arrive ((env, c) ∷ cs) = client env c ∷ arrive cs

-- A round of the loop succeeds unless it panics: errors are answered.
went_on :
    (env : Env) (time_out : Option ℕ) (s t : Session) (r : Outcome KittyProxyError ℕ)
    → handle_client env time_out s ≡ (r, t)
    → Calm (serve_client env time_out s).0
    → (serve_client env time_out s).0 ≡ ok tt
unfolding serve_client
went_on env time_out s t (ok n) e calm = rw (e, serve_client) refl
went_on env time_out s t (err u) e calm = rw (e, serve_client) refl
went_on env time_out s t panic e calm = absurd (calm (rw (e, serve_client) refl))

-- The proxy is built with these checks, and the client does not ask for a name that is no text.
abbrev pub IsNamed : Bool → Env × Stream → Type 0
IsNamed checks (env, c) = (env.checks ≡ checks) × ¬ IsMisnamed c.input

module _ (checks : Bool) (ns : List NodeInfo) where
  -- The connections that are open after some clients, at most `size`.
  record Left (size : ℕ) (b : Option ConnectionStatsBanlancer) : Type 0 where
    after : ConnectionStatsBanlancer
    live : List NodeInfo
    is_set : b ≡ some after
    few : length live ≤ size
    run : Run KittyProxyError checks (start ns) (record { balancer = after; live = live })

  Fits-Left :
      (env : Env) {A : Type 0} (can_choose : Unit {0} → IsServing (from_vec ns)) (size : ℕ)
      (live : List NodeInfo) (p : Outcome KittyProxyError A × Session)
      → env.checks ≡ checks
      → length live ≤ size
      → Fits env ns Unit can_choose live p
      → Left (size + 1) p.1.balancer
  unfolding Fits Open
  Fits-Left env can_choose size live p same few (calm, inl (b, e, run)) = record {
    after = b;
    live = live;
    is_set = e;
    few = omega (arith, few);
    run =
        subst (λ k. Run KittyProxyError k (start ns) (record { balancer = b; live = live })) same
          run;
  }
  Fits-Left env can_choose size live p same few (calm, inr (n, (b, e, run))) = record {
    after = b;
    live = n ∷ live;
    is_set = e;
    few = omega (arith, few);
    run =
        subst (λ k. Run KittyProxyError k (start ns) (record { balancer = b; live = n ∷ live }))
          same run;
  }

  Left-Open :
      (env : Env) (size : ℕ) (b : Option ConnectionStatsBanlancer) (c : Stream) (l : Left size b)
      → env.checks ≡ checks
      → Open env ns l.live (record { client = c; balancer = b })
  unfolding Open
  Left-Open env size b c l same = (
    l.after,
    l.is_set,
    subst (λ k. Run KittyProxyError k (start ns) (record { balancer = l.after; live = l.live }))
        (sym same) l.run,
  )

  module _ (time_out : Option ℕ) (serving : IsServing (from_vec ns)) where
    serve-each :
        (clients : List (Env × Stream)) (size : ℕ) (b : Option ConnectionStatsBanlancer)
        → size + length clients < 2 ^ 64
        → All (IsNamed checks) clients
        → Left size b
        → serve time_out (arrive clients) b ≡ serve_each time_out clients b
    unfolding serve serve_each Fits arrive
    serve-each [] size b room named l = refl
    serve-each ((env, c) ∷ clients) size b room named l =
        rw (succeeds, serve)
          (ap
            (λ (rest : List Stream × Option ConnectionStatsBanlancer).
              ((serve_client env time_out s).1.client ∷ rest.0, rest.1))
            (serve-each clients (size + 1) _ (omega (arith, room)) named.1 (
              Fits-Left env (λ _. serving) size l.live (serve_client env time_out s) named.0.0 l.few
                fits)))
      where
        s : Session
        s = record { client = c; balancer = b }

        fits : Fits env ns Unit (λ _. serving) l.live (serve_client env time_out s)
        fits =
            serve_client-Fits env ns Unit (λ _. serving) l.live (omega (arith, l.few, room))
              time_out s (λ _ panics. named.0.1 (from_stream-IsMisnamed c panics))
              (Left-Open env size b c l named.0.0)

        succeeds : (serve_client env time_out s).0 ≡ ok tt
        succeeds =
            went_on env time_out s (handle_client env time_out s).1 (handle_client env time_out s).0
              refl (fits.0 tt)

-- As long as `accept` returns clients, the accept loop goes on: with at least one node, nodes of
-- positive weight, and fewer clients than a `usize` can count, of which none sends a request for a
-- domain whose name is not UTF-8, every client is served, one after the other, with the balancer that
-- the one before has left; whatever it asks for, and however its connection, its target or its node
-- fails. Each client finds a network, rules and map orders of its own; each read, dial and copy comes
-- to an end; and the same build, with or without overflow checks, serves them all.
pub serve-serve_each :
    (checks : Bool) (time_out : Option ℕ) (ns : List NodeInfo) (clients : List (Env × Stream))
    → ns ≢ []
    → All HasWeight ns
    → length clients < 2 ^ 64
    → All (IsNamed checks) clients
    → serve time_out (arrive clients) (some (from_vec ns))
      ≡ serve_each time_out clients (some (from_vec ns))
serve-serve_each checks time_out ns clients some_node weights room named =
    serve-each checks ns time_out (from_vec-IsServing ns some_node weights) clients 0
      (some (from_vec ns)) (omega (arith, room)) named
      (record { after = from_vec ns; live = []; is_set = refl; few = omega arith; run = done })
