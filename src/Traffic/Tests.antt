-- ===== src/Traffic/Tests.antt =====
-- Rules over simple combiners, and the theorems on src/traffic_diversion.rs at them.
use mathlib.Core.List.{not-mem-nil}
use kitty_proxy.Common.{
  ℕ, List, [], ◌∷◌, ◌≡◌, ◌≢◌, refl, Bool, false, ◌||◌, ◌==◌, Option, none, some, inl,
}
use kitty_proxy.Text.{Text, codes, text_eq}
use kitty_proxy.Text.Decimal.{parse_u8, split}
use kitty_proxy.Text.Contains.{IsInfix}
use kitty_proxy.HashMap.{get}
use kitty_proxy.Types.{Host, ipv4, domain, Ipv4Addr, Ipv6Addr}
use kitty_proxy.V2ray.{GeoIp}
use kitty_proxy.Balancer.Tests.{in_order}
use kitty_proxy.Traffic.Crates.{Combiner, Deps, Order}
use kitty_proxy.Traffic.Rule.{TrafficStreamRule, direct, proxy, reject}
use kitty_proxy.Traffic.{
  MatchProxy, default, traffic_stream, traffic_stream_domain, add_cidr, add_domain_suffix,
  reset_direct_cidr, domain_match_cn, regex_match_cn,
}
use kitty_proxy.Traffic.Verdict.{Verdict, traffic_stream_domain-Verdict, Verdict-decides, by_regex}
use kitty_proxy.Traffic.Addresses.{traffic_stream-add_cidr}
use kitty_proxy.Traffic.Edits.{
  cidr, clear_cidr, edits, reset-edits, delete_root, root_domain, delete_suffix,
}
use kitty_proxy.Traffic.Policy.{policy_of, amends, edits-amends}
use kitty_proxy.Traffic.Edits.{Edit}
use kitty_proxy.Traffic.Names.{Kind, delete, add, delete-add, add_domain_suffix-decides}

-- Blocks named by their first part: an octet of IPv4, a segment of IPv6.
abbrev covered : {A : Type 0} → (A → ℕ) → List ℕ → A → Bool
covered part [] a = false
covered part (c ∷ cs) a = covered part cs a || c == part a

abbrev blocks : {A : Type 0} → (A → ℕ) → (Text → Option ℕ) → Combiner A
blocks part read = record {
  Cidr = ℕ;
  from_str = read;
  covers = λ c a. c == part a;
  Ranges = List ℕ;
  new = [];
  push = λ r c. c ∷ r;
  contains = covered part;
  contains-new = λ a. refl;
  contains-push = λ r c a. refl;
}

abbrev first_octet : Text → Option ℕ
first_octet t = elim (split b'.' t) [ [] ↦ none | p ∷ ps ↦ parse_u8 p ]

abbrev pub china : GeoIp
china = record {
  country_code = codes "CN";
  cidr = (record { ip = 1 ∷ 0 ∷ 0 ∷ 0 ∷ []; prefix = 8 }) ∷ [];
  reverse_match = false;
}

abbrev pub crates : Deps
crates = record {
  v4 = blocks (λ (h : Ipv4Addr). h.a) first_octet;
  v6 = blocks (λ (h : Ipv6Addr). h.s0) (λ t. none);
  ip_cidr_from_str = λ t. elim (first_octet t) [ none ↦ none | some c ↦ some (inl c) ];
  Regex = Text;
  regex_new = some;
  is_match = text_eq;
  parse_domain_name = λ t. some (some t);
  read_file = λ t. some [];
  decode_geo_ip = λ t. some (record { entry = china ∷ [] });
  decode_geo_site = λ t. some (record { entry = [] });
}

abbrev pub order : Order TrafficStreamRule
order = in_order

abbrev pub empty : MatchProxy crates
empty = default crates

abbrev pub at : ℕ → Host
at x = ipv4 (record { a = x; b = 2; c = 3; d = 4 })

abbrev one : Text
one = codes "1.0.0.0/8"

abbrev after_one : TrafficStreamRule → MatchProxy crates
after_one direct = record empty { direct_ipv4_combainer = 1 ∷ [] }
after_one proxy = record empty { proxy_ipv4_combainer = 1 ∷ [] }
after_one reject = record empty { reject_ipv4_combainer = 1 ∷ [] }

no_domain : (x : ℕ) (name : Text) → at x ≢ domain name
no_domain x name = λ e. cc

traffic_stream-add_cidr_example : traffic_stream crates order (after_one reject) (at 1) ≡ proxy
unfolding add_cidr parse_u8 split traffic_stream default
traffic_stream-add_cidr_example =
    traffic_stream-add_cidr crates order empty (after_one reject) one (inl 1) reject (at 1) refl
      refl

-- Two edits, undone for addresses by the reset.
reset-edits_example :
    traffic_stream crates order
      (reset_direct_cidr crates (edits crates empty (cidr one direct ∷ clear_cidr ∷ [])))
      (at 1)
    ≡ traffic_stream crates order (reset_direct_cidr crates empty) (at 1)
reset-edits_example =
    reset-edits crates order empty (cidr one direct ∷ clear_cidr ∷ []) (at 1) (no_domain 1)

delete-add_example :
    delete crates Kind.root (add crates Kind.root empty (codes "a.cn") direct) (codes "a.cn")
    ≡ empty
unfolding get default
delete-add_example = delete-add crates Kind.root empty (codes "a.cn") direct refl

in_name : IsInfix (codes "a") (codes "xa.cn")
in_name = (codes "x", codes ".cn", refl)

add_domain_suffix-decides_example :
    traffic_stream crates order
      (add_domain_suffix crates empty (codes "a") reject)
      (domain (codes "xa.cn"))
    ≡ reject
unfolding default
add_domain_suffix-decides_example =
    add_domain_suffix-decides crates order empty (codes "a") (codes "xa.cn") reject in_name
      (λ w h. absurd (not-mem-nil h.1))

traffic_stream_domain-Verdict_example :
    Verdict crates empty (codes "a.cn") (traffic_stream_domain crates order empty (codes "a.cn"))
traffic_stream_domain-Verdict_example =
    traffic_stream_domain-Verdict crates empty (codes "a.cn") order

-- A site that a regular expression matches.
abbrev with_regex : MatchProxy crates
with_regex = record empty { direct_regex_sites = codes "a.cn" ∷ [] }

Verdict-decides_example : traffic_stream_domain crates order with_regex (codes "a.cn") ≡ direct
unfolding default text_eq get domain_match_cn regex_match_cn
Verdict-decides_example =
    Verdict-decides crates with_regex (codes "a.cn") order direct
      (λ v w h k. absurd (not-mem-nil h.1)) (λ v w h k. absurd (not-mem-nil h.1))
      (by_regex (((λ k v t. absurd (not-mem-nil t)), (λ k v t. absurd (not-mem-nil t))), refl, refl)
        refl refl)

abbrev some_edits : List Edit
some_edits =
    cidr one direct
    ∷ root_domain (codes "a.cn") reject
    ∷ delete_root (codes "b.cn")
    ∷ Edit.suffix (codes "a") proxy
    ∷ delete_suffix (codes "a")
    ∷ []

edits-amends_example :
    policy_of crates (edits crates empty some_edits)
    ≡ amends crates (policy_of crates empty) some_edits
edits-amends_example = edits-amends crates some_edits empty
