-- ===== src/ProxyExample/Routes.antt =====
-- Where the program of src/examples/proxy_example.rs sends the requests for domains.
use kitty_proxy.Common.{
  ℕ, [], ◌≡◌, ◌≢◌, refl, sym, ap, ◌∙◌, Bool, true, false, none, some, arith, All,
}
use kitty_proxy.Common.Outcome.{Outcome, ok, err, panic, and_then, and_then-eq-ok}
use kitty_proxy.Text.{Text, codes}
use kitty_proxy.Types.{
  Address, domain_name_address, address_of_node, host_of_address, Host, domain, NodeInfo, node_eq,
}
use kitty_proxy.V2ray.{GeoSiteList}
use kitty_proxy.Traffic.Crates.{Deps, Order}
use kitty_proxy.Traffic.Rule.{TrafficStreamRule, direct, proxy, reject}
use kitty_proxy.Traffic.{MatchProxy, traffic_stream}
use kitty_proxy.Traffic.Edits.{edits}
use kitty_proxy.Traffic.Load.{from_geo_dat, read_geosite_from_dat}
use kitty_proxy.Traffic.Load.Said.{cn_sites}
use kitty_proxy.Traffic.Load.Verdict.{verdict_of, from_geo_dat-verdict_of}
use kitty_proxy.Traffic.Load.Loaded.{from_geo_dat_accepts}
use kitty_proxy.Balancer.Counts.{listed}
use kitty_proxy.Balancer.Serving.{HasWeight}
use kitty_proxy.Http.Crates.{Hyper, Request}
use kitty_proxy.Http.{HttpEnv, empty, request_host}
use kitty_proxy.Http.Server.{HttpProxy, Task, arrived, chosen, answered, resume, serve, new}
use kitty_proxy.Http.Server.Invariant.{resume_direct, Reach-chosen, listed_known}
use kitty_proxy.Http.System.{System, Reach, made, server_Reach}
use kitty_proxy.Http.System.Amended.{Reach-edits}
use kitty_proxy.ProxyExample.{
  begin, unwrap_result, geoip_file, geosite_file, http_vpn_node_info, http_vpn_node_infos,
}

unwrap_result-eq-ok :
    {E F A : Type 0} (r : Outcome E A) {a : A} → unwrap_result {F = F} r ≡ ok a → r ≡ ok a
unwrap_result-eq-ok (ok b) h = ground (arith, h)
unwrap_result-eq-ok (err e) h = cc
unwrap_result-eq-ok panic h = cc

weighted : All HasWeight http_vpn_node_infos
weighted = ((1, refl, omega arith, omega arith), tt)

only_node : (n : NodeInfo) → listed http_vpn_node_infos n ≡ true → n ≡ http_vpn_node_info
only_node n h = sym ((node_eq.beq_iff http_vpn_node_info n).0 (ground (arith, h)))

module _ (d : Deps) (order : Order TrafficStreamRule) (x : Hyper) (checks : Bool)
    (bind : Text → ℕ → Bool) where
  -- What a task becomes whose request gets this rule.
  abbrev pub task_for : TrafficStreamRule → Address → Request x → Task x
  task_for direct host req = chosen host true none req
  task_for proxy host req =
      chosen (address_of_node http_vpn_node_info) false (some http_vpn_node_info) req
  task_for reject host req = answered empty

  begin-loaded :
      (served : HttpProxy) (rules : MatchProxy d)
      → begin d x.Error bind ≡ ok (served, rules)
      → from_geo_dat d (some geoip_file) (some geosite_file) ≡ ok rules
  unfolding begin
  begin-loaded served rules h =
      let (m, loaded, h1) =
        and_then-eq-ok
          (unwrap_result {F = x.Error} (from_geo_dat d (some geoip_file) (some geosite_file)))
          (λ match_proxy.
            and_then (serve bind (new (codes "127.0.0.1") 10089 none) http_vpn_node_infos)
              λ running. ok (running, match_proxy))
          h in
      let (running, _, h2) =
        and_then-eq-ok
          (serve {E = x.Error} bind (new (codes "127.0.0.1") 10089 none) http_vpn_node_infos)
          (λ running. ok (running, m)) h1 in
      let same : m ≡ rules = ground (arith, h2) in
      unwrap_result-eq-ok (from_geo_dat d (some geoip_file) (some geosite_file)) loaded ∙ ap ok same

  module _ (served : HttpProxy) (rules : MatchProxy d) (gs : GeoSiteList)
      (s : System d order x checks) (reach : Reach d order x checks rules http_vpn_node_infos s)
      (req request : Request x) (name : Text) (port : ℕ) (env : HttpEnv x) where
    asked_rule :
        begin d x.Error bind ≡ ok (served, rules)
        → made d order x checks reach ≡ []
        → ((host : Host) → env.traffic_stream host ≡ traffic_stream d order s.rules host)
        → env.traffic_stream (domain name) ≡ traffic_stream d order rules (domain name)
    unfolding edits
    asked_rule begun unedited reads =
        reads (domain name)
        ∙ ap (λ r. traffic_stream d order r (domain name))
            (Reach-edits d order x checks rules http_vpn_node_infos s reach
              ∙ ap (edits d rules) unedited)

    routed :
        (v : TrafficStreamRule)
        → v ≢ reject
        → request_host x req ≡ ok (domain_name_address name port, request)
        → env.traffic_stream (domain name) ≡ v
        → resume x env (arrived req) s.server.shared
          ≡ (task_for v (domain_name_address name port) request, s.server.shared)
    unfolding host_of_address
    routed reject accepts found e = absurd (accepts refl)
    routed direct accepts found e =
        resume_direct x env req request (domain_name_address name port) s.server.shared found e
    routed proxy accepts found e =
        let at_server = server_Reach d order x checks reach in
        let (b, n, set, least, goes) =
          Reach-chosen x checks http_vpn_node_infos s.server req request
            (domain_name_address name port) env at_server (λ e. cc) weighted found e in
        let here =
          only_node n
            (listed_known x checks http_vpn_node_infos s.server b n at_server set least.0) in
        goes ∙ ap (λ k. (chosen (address_of_node k) false (some k) request, s.server.shared)) here

    -- The whole program, on the rules that its geo files give and that nothing edits: in whatever way
    -- its tasks have run so far, a request for a domain is sent to that domain if the sites of the
    -- first "cn" entry of the geo site file make it direct, and else to the one node; the task that
    -- does so waits for its connection, and the balancer is as it was.
    pub begin-task_for :
        begin d x.Error bind ≡ ok (served, rules)
        → read_geosite_from_dat d (some geosite_file) ≡ ok gs
        → made d order x checks reach ≡ []
        → ((host : Host) → env.traffic_stream host ≡ traffic_stream d order s.rules host)
        → request_host x req ≡ ok (domain_name_address name port, request)
        → resume x env (arrived req) s.server.shared ≡ (
          task_for (verdict_of d (cn_sites gs.entry) name) (domain_name_address name port) request,
          s.server.shared,
        )
    unfolding traffic_stream
    begin-task_for begun read unedited reads found =
        let loaded = begin-loaded served rules begun in
        let verdict =
          from_geo_dat-verdict_of d order (some geoip_file) (some geosite_file) rules gs name loaded
            read in
        let accepts : verdict_of d (cn_sites gs.entry) name ≢ reject = λ e.
          from_geo_dat_accepts d order (some geoip_file) (some geosite_file) rules (domain name)
            loaded (verdict ∙ e) in
        routed (verdict_of d (cn_sites gs.entry) name) accepts found
          (asked_rule begun unedited reads ∙ verdict)
