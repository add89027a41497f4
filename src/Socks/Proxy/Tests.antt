-- ===== src/Socks/Proxy/Tests.antt =====
-- A proxy with two nodes that serves two clients and is stopped: the theorems at it.
use kitty_proxy.Common.{
  ap, get_or, ◌≢◌, ℕ, List, [], ◌∷◌, ◌++◌, ◌≡◌, refl, true, some, none, arith, length,
}
use kitty_proxy.Traffic.{TrafficStreamRule}
use kitty_proxy.Balancer.{from_vec}
use kitty_proxy.Balancer.Tests.{two_nodes}
use kitty_proxy.Socks.Stream.{Stream}
use kitty_proxy.Socks.Tests.{sending, to_domain}
use kitty_proxy.Socks.Client.{Env, connected, timed_out}
use kitty_proxy.Socks.Client
use kitty_proxy.Socks.Client.Tests.{network, silent}
use kitty_proxy.Text.Utf8.{from_utf8}
use kitty_proxy.Socks.Request.Panics.{IsMisnamed}
use kitty_proxy.Socks.Client.Serving.{serve_each, arrive, serve-serve_each}

-- The nodes take what they are sent and do not answer.
abbrev env : Env
env = network TrafficStreamRule.proxy (connected silent)

-- The second client finds other rules, and a network in which nothing can be dialled.
abbrev two_clients : List (Env × Stream)
two_clients =
    (env, sending to_domain) ∷ (network TrafficStreamRule.direct timed_out, sending to_domain) ∷ []

-- The request for "cn" is not one for a name that is no text.
cn_IsMisnamed :
    (methods packet name rest : List ℕ) (v c r a : ℕ)
    → to_domain ≡ (((5 ∷ length methods ∷ methods) ++ packet) ++ (length name ∷ name)) ++ rest
    → packet ≡ v ∷ c ∷ r ∷ a ∷ []
    → from_utf8 name ≢ none
unfolding from_utf8
cn_IsMisnamed [] packet name rest v c r a e p bad = cc
cn_IsMisnamed (m ∷ []) packet name rest v c r a e p bad = go name (rw p at e) bad
  where
    go :
        (name : List ℕ)
        → to_domain ≡ ((5 ∷ 1 ∷ m ∷ v ∷ c ∷ r ∷ a ∷ []) ++ (length name ∷ name)) ++ rest
        → from_utf8 name ≡ none
        → ⊥
    go [] e bad = cc
    go (k ∷ []) e bad = cc
    go (k ∷ l ∷ []) e bad =
        let first : 99 ≡ k = ap (λ t. get_or t 8 0) e in
        let second : 110 ≡ l = ap (λ t. get_or t 9 0) e in some_none (rw (← first, ← second) at bad)
      where
        some_none : from_utf8 (99 ∷ 110 ∷ []) ≡ none → ⊥
        some_none e = cc
    go (k ∷ l ∷ n ∷ name) e bad = ground arith
cn_IsMisnamed (m ∷ n ∷ methods) packet name rest v c r a e p bad = ground arith

named : ¬ IsMisnamed to_domain
named h =
    let (v, c, r, a, p, _, _) = h.head in
    cn_IsMisnamed h.methods h.packet h.name h.rest v c r a h.sent p h.not_text

serve-serve_each_example :
    Client.serve none (arrive two_clients) (some (from_vec two_nodes))
    ≡ serve_each none two_clients (some (from_vec two_nodes))
serve-serve_each_example =
    serve-serve_each true none two_nodes two_clients (λ e. cc)
      ((1, refl, omega arith, omega arith), ((2, refl, omega arith, omega arith), tt)) (omega arith)
      ((refl, named), ((refl, named), tt))
