-- ===== src/Traffic.antt =====
-- src/traffic_diversion.rs: which hosts are reached directly, through a node, or not at all. A
-- `MatchProxy` holds the rules; the names keep the source's spelling.
pub mod Crates
pub mod Rule
pub mod Contained
pub mod Verdict
pub mod Edits
pub mod Addresses
pub mod Names
pub mod Policy
pub mod IpNumber
pub mod SiteIp
pub mod Load
pub mod Tests
use kitty_proxy.Common.{
  ℕ, List, [], ◌∷◌, ◌++◌, Bool, true, false, Option, none, some, if◌then◌else◌, ◌⊎◌, inl, inr,
}
use kitty_proxy.Common.Outcome.{Outcome, ok, err, panic}
use kitty_proxy.Text.{Text, contains}
use kitty_proxy.HashMap.{HashMap, Visit, get, insert, remove}
use kitty_proxy.Types.{Host, ipv4, ipv6, domain, text_key}
pub use Rule.{TrafficStreamRule, direct, proxy, reject}
use Crates.{Deps, Order}

-- `if let Some(res) = res { return res.to_owned(); }`
abbrev pub or_else : Option TrafficStreamRule → TrafficStreamRule → TrafficStreamRule
or_else (some res) next = res
or_else none next = next

-- The loop of `match_preffix` and `match_suffix` over the entries of a map.
unfoldable pub match_contained : List (Text × TrafficStreamRule) → Text → Option TrafficStreamRule
match_contained [] input = none
match_contained ((k, v) ∷ entries) input =
    if contains input k then some v else match_contained entries input

module _ (x : Deps) where
  pub record MatchProxy : Type 0 where
    pub plain_site_map : HashMap Text TrafficStreamRule
    pub root_domain_map : HashMap Text TrafficStreamRule
    pub direct_regex_sites : List x.Regex
    pub direct_ipv4_combainer : x.v4.Ranges
    pub direct_ipv6_combainer : x.v6.Ranges
    pub direct_ipv4_combainer_clone : x.v4.Ranges
    pub direct_ipv6_combainer_clone : x.v6.Ranges
    pub proxy_ipv4_combainer : x.v4.Ranges
    pub proxy_ipv6_combainer : x.v6.Ranges
    pub reject_ipv4_combainer : x.v4.Ranges
    pub reject_ipv6_combainer : x.v6.Ranges
    pub suffix_domain_map : HashMap Text TrafficStreamRule
    pub preffix_domain_map : HashMap Text TrafficStreamRule

  -- `Default::default`
  unfoldable pub default : MatchProxy
  default = record {
    plain_site_map = [];
    root_domain_map = [];
    direct_regex_sites = [];
    direct_ipv4_combainer = x.v4.new;
    direct_ipv6_combainer = x.v6.new;
    direct_ipv4_combainer_clone = x.v4.new;
    direct_ipv6_combainer_clone = x.v6.new;
    proxy_ipv4_combainer = x.v4.new;
    proxy_ipv6_combainer = x.v6.new;
    reject_ipv4_combainer = x.v4.new;
    reject_ipv6_combainer = x.v6.new;
    suffix_domain_map = [];
    preffix_domain_map = [];
  }

  unfoldable pub regex_match : List x.Regex → Text → Bool
  regex_match [] input = false
  regex_match (r ∷ rs) input = if x.is_match r input then true else regex_match rs input

  unfoldable pub regex_match_cn : MatchProxy → Text → Bool
  unfolding regex_match
  regex_match_cn self input = regex_match self.direct_regex_sites input

  unfoldable pub domain_match_cn : MatchProxy → Text → Option TrafficStreamRule
  domain_match_cn self input = elim (x.parse_domain_name input) [
    | none ↦ none
    | some root ↦ elim root [
      | none ↦ none
      | some domain_root ↦ get self.root_domain_map domain_root
    ]
  ]

  module _ (order : Order TrafficStreamRule) where
    unfoldable pub match_preffix : MatchProxy → Text → Option TrafficStreamRule
    unfolding match_contained
    match_preffix self input = match_contained (order.iter self.preffix_domain_map) input

    unfoldable pub match_suffix : MatchProxy → Text → Option TrafficStreamRule
    unfolding match_contained
    match_suffix self input = match_contained (order.iter self.suffix_domain_map) input

    unfoldable pub traffic_stream_domain : MatchProxy → Text → TrafficStreamRule
    unfolding match_suffix match_preffix domain_match_cn regex_match_cn
    traffic_stream_domain self input = or_else (match_suffix self input) (
        or_else (match_preffix self input) (
          or_else (get self.plain_site_map input) (
            or_else (domain_match_cn self input)
              (if regex_match_cn self input then direct else proxy))))

    unfoldable pub traffic_stream : MatchProxy → Host → TrafficStreamRule
    unfolding traffic_stream_domain
    traffic_stream self (ipv4 host) =
        if x.v4.contains self.direct_ipv4_combainer host then direct else proxy
    traffic_stream self (ipv6 host) =
        if x.v6.contains self.direct_ipv6_combainer host then direct else proxy
    traffic_stream self (domain host) = traffic_stream_domain self host

    unfoldable pub is_direct : MatchProxy → Host → Bool
    unfolding traffic_stream
    is_direct self host = elim (traffic_stream self host) [ direct ↦ true | _ ↦ false ]

  -- The two inner matches of `add_cidr`.
  push_v4 : MatchProxy → x.v4.Cidr → TrafficStreamRule → MatchProxy
  push_v4 self c direct = record self {
    direct_ipv4_combainer = x.v4.push self.direct_ipv4_combainer c;
  }
  push_v4 self c proxy = record self {
    proxy_ipv4_combainer = x.v4.push self.proxy_ipv4_combainer c;
  }
  push_v4 self c reject = record self {
    reject_ipv4_combainer = x.v4.push self.reject_ipv4_combainer c;
  }

  push_v6 : MatchProxy → x.v6.Cidr → TrafficStreamRule → MatchProxy
  push_v6 self c direct = record self {
    direct_ipv6_combainer = x.v6.push self.direct_ipv6_combainer c;
  }
  push_v6 self c proxy = record self {
    proxy_ipv6_combainer = x.v6.push self.proxy_ipv6_combainer c;
  }
  push_v6 self c reject = record self {
    reject_ipv6_combainer = x.v6.push self.reject_ipv6_combainer c;
  }

  -- `add_cidr` fails on what `IpCidr::from_str` refuses, and changes nothing then.
  unfoldable pub add_cidr : MatchProxy → Text → TrafficStreamRule → Option MatchProxy
  unfolding push_v4 push_v6
  add_cidr self cidr rule = elim (x.ip_cidr_from_str cidr) [
    | none ↦ none
    | some ip_cidr ↦ elim ip_cidr [
      | inl c ↦ some (push_v4 self c rule)
      | inr c ↦ some (push_v6 self c rule)
    ]
  ]

  -- The registrable root of a name, or "".
  pub root_or_empty : Text → Text
  root_or_empty name = elim (x.parse_domain_name name) [
    | none ↦ []
    | some root ↦ elim root [ none ↦ [] | some domain_root ↦ domain_root ]
  ]

  insert_root : MatchProxy → Text → TrafficStreamRule → MatchProxy
  insert_root self [] rule = self
  insert_root self (c ∷ root) rule = record self {
    root_domain_map = insert self.root_domain_map (c ∷ root) rule;
  }

  remove_root : MatchProxy → Text → MatchProxy
  remove_root self [] = self
  remove_root self (c ∷ root) = record self {
    root_domain_map = remove self.root_domain_map (c ∷ root);
  }

  unfoldable pub add_root_domain : MatchProxy → Text → TrafficStreamRule → MatchProxy
  unfolding root_or_empty insert_root
  add_root_domain self name rule = insert_root self (root_or_empty name) rule

  unfoldable pub add_full_domain : MatchProxy → Text → TrafficStreamRule → MatchProxy
  add_full_domain self name rule = record self {
    plain_site_map = insert self.plain_site_map name rule;
  }

  unfoldable pub add_domain_suffix : MatchProxy → Text → TrafficStreamRule → MatchProxy
  add_domain_suffix self suffix rule = record self {
    suffix_domain_map = insert self.suffix_domain_map suffix rule;
  }

  unfoldable pub add_domain_preffix : MatchProxy → Text → TrafficStreamRule → MatchProxy
  add_domain_preffix self preffix rule = record self {
    preffix_domain_map = insert self.preffix_domain_map preffix rule;
  }

  unfoldable pub reset_direct_cidr : MatchProxy → MatchProxy
  reset_direct_cidr self = record self {
    direct_ipv4_combainer = self.direct_ipv4_combainer_clone;
    direct_ipv6_combainer = self.direct_ipv6_combainer_clone;
  }

  unfoldable pub clear_not_direct_cidr : MatchProxy → MatchProxy
  clear_not_direct_cidr self = record self {
    proxy_ipv4_combainer = x.v4.new;
    proxy_ipv6_combainer = x.v6.new;
    reject_ipv4_combainer = x.v4.new;
    reject_ipv6_combainer = x.v6.new;
  }

  unfoldable pub delete_domain_suffix : MatchProxy → Text → MatchProxy
  delete_domain_suffix self suffix = record self {
    suffix_domain_map = remove self.suffix_domain_map suffix;
  }

  unfoldable pub delete_domain_preffix : MatchProxy → Text → MatchProxy
  delete_domain_preffix self preffix = record self {
    preffix_domain_map = remove self.preffix_domain_map preffix;
  }

  unfoldable pub delete_full_domain : MatchProxy → Text → MatchProxy
  delete_full_domain self name = record self { plain_site_map = remove self.plain_site_map name }

  unfoldable pub delete_root_domain : MatchProxy → Text → MatchProxy
  unfolding root_or_empty remove_root
  delete_root_domain self name = remove_root self (root_or_empty name)
