-- ===== src/ProxyExample.antt =====
-- src/examples/proxy_example.rs: the whole program, from the geo files to a proxy that serves.
pub mod Routes
pub mod Tests
use kitty_proxy.Common.{ℕ, List, [], ◌∷◌, Bool, Option, none, some}
use kitty_proxy.Common.Outcome.{Outcome, ok, err, panic, and_then}
use kitty_proxy.Text.{Text, codes}
use kitty_proxy.Types.{NodeInfo, new_node, v4, pos}
use kitty_proxy.Traffic.Crates.{Deps}
use kitty_proxy.Traffic.{MatchProxy}
use kitty_proxy.Traffic.Load.{from_geo_dat}
use kitty_proxy.Http.Server.{HttpProxy, new, serve}

-- `Result::unwrap`
abbrev pub unwrap_result : {E F A : Type 0} → Outcome E A → Outcome F A
unwrap_result (ok a) = ok a
unwrap_result (err e) = panic
unwrap_result panic = panic

abbrev pub geoip_file : Text
geoip_file = codes "src/geo_files/geoip.dat"

abbrev pub geosite_file : Text
geosite_file = codes "src/geo_files/geosite.dat"

-- The one node, 127.0.0.1:24689.
abbrev pub http_vpn_node_info : NodeInfo
http_vpn_node_info = new_node (v4 (record { a = 127; b = 0; c = 0; d = 1 })) 24689 (pos 1)

abbrev pub http_vpn_node_infos : List NodeInfo
http_vpn_node_infos = http_vpn_node_info ∷ []

-- `E` is the errors of `main`.
module _ (d : Deps) (E : Type 0) (bind : Text → ℕ → Bool) where
  -- Up to the end of `serve`: the proxy, whose tasks run from here on, and the rules.
  pub begin : Outcome E (HttpProxy × MatchProxy d)
  begin =
      and_then (unwrap_result (from_geo_dat d (some geoip_file) (some geosite_file))) λ match_proxy.
        and_then (serve bind (new (codes "127.0.0.1") 10089 none) http_vpn_node_infos)
          λ proxy. ok (proxy, match_proxy)

  -- `ctrl_c` is what waiting for the interrupt returns.
  pub main : Outcome E (Unit {0}) → Outcome E (Unit {0})
  unfolding begin
  main ctrl_c = and_then begin λ _. ctrl_c
