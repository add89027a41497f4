-- ===== src/Traffic/Addresses.antt =====
-- The verdict for IP addresses, and how `add_cidr`, `reset_direct_cidr` and the other mutators act
-- on it.
use kitty_proxy.Common.{
  ◌≡◌, ◌≢◌, refl, Bool, false, ◌||◌, some, arith, inl, inr, ◌⊎◌, if◌then◌else◌,
}
use kitty_proxy.Text.{Text}
use kitty_proxy.Types.{Host, ipv4, ipv6, domain}
use kitty_proxy.Traffic.Crates.{Deps, Order}
use kitty_proxy.Traffic.Rule.{TrafficStreamRule, direct, proxy, reject}
use kitty_proxy.Traffic.{MatchProxy, traffic_stream, add_cidr, push_v4, push_v6}

joined :
    (a b : Bool)
    → (if a || b then direct else proxy) ≡ (if b then direct else if a then direct else proxy)
joined a b = ground arith

module _ (x : Deps) where
  -- The addresses that an IP CIDR covers.
  abbrev pub covers : x.v4.Cidr ⊎ x.v6.Cidr → Host → Bool
  covers (inl c) (ipv4 a) = x.v4.covers c a
  covers (inr c) (ipv6 a) = x.v6.covers c a
  covers _ _ = false

module _ (x : Deps) (order : Order TrafficStreamRule) where
  -- No rule makes an address `reject`: an address is `direct` or `proxy`.
  pub address_not_rejected :
      (self : MatchProxy x) (h : Host)
      → ((name : Text) → h ≢ domain name)
      → traffic_stream x order self h ≢ reject
  unfolding traffic_stream
  address_not_rejected self (ipv4 a) n = ground arith
  address_not_rejected self (ipv6 a) n = ground arith
  address_not_rejected self (domain name) n = absurd (n name refl)

  pushed : MatchProxy x → x.v4.Cidr ⊎ x.v6.Cidr → TrafficStreamRule → MatchProxy x
  pushed self (inl c) rule = push_v4 x self c rule
  pushed self (inr c) rule = push_v6 x self c rule

  add_cidr_parsed :
      (self : MatchProxy x) (cidr : Text) (c : x.v4.Cidr ⊎ x.v6.Cidr) (rule : TrafficStreamRule)
      → x.ip_cidr_from_str cidr ≡ some c
      → add_cidr x self cidr rule ≡ some (pushed self c rule)
  unfolding add_cidr pushed
  add_cidr_parsed self cidr (inl c) rule e = rw (e, add_cidr)
  add_cidr_parsed self cidr (inr c) rule e = rw (e, add_cidr)

  -- A direct CIDR speaks of the hosts that it covers.
  abbrev pub with_cidr : TrafficStreamRule → Bool → TrafficStreamRule → TrafficStreamRule
  with_cidr direct covered verdict = if covered then direct else verdict
  with_cidr proxy covered verdict = verdict
  with_cidr reject covered verdict = verdict

  traffic_stream-pushed :
      (self : MatchProxy x) (c : x.v4.Cidr ⊎ x.v6.Cidr) (rule : TrafficStreamRule) (h : Host)
      → traffic_stream x order (pushed self c rule) h
        ≡ with_cidr rule (covers x c h) (traffic_stream x order self h)
  unfolding traffic_stream pushed push_v4 push_v6
  traffic_stream-pushed self (inl c) direct (ipv4 a) =
      rw (x.v4.contains-push self.direct_ipv4_combainer c a) (joined _ _)
  traffic_stream-pushed self (inl c) proxy (ipv4 a) = refl
  traffic_stream-pushed self (inl c) reject (ipv4 a) = refl
  traffic_stream-pushed self (inl c) direct (ipv6 a) = refl
  traffic_stream-pushed self (inl c) proxy (ipv6 a) = refl
  traffic_stream-pushed self (inl c) reject (ipv6 a) = refl
  traffic_stream-pushed self (inl c) direct (domain a) = refl
  traffic_stream-pushed self (inl c) proxy (domain a) = refl
  traffic_stream-pushed self (inl c) reject (domain a) = refl
  traffic_stream-pushed self (inr c) direct (ipv6 a) =
      rw (x.v6.contains-push self.direct_ipv6_combainer c a) (joined _ _)
  traffic_stream-pushed self (inr c) proxy (ipv6 a) = refl
  traffic_stream-pushed self (inr c) reject (ipv6 a) = refl
  traffic_stream-pushed self (inr c) direct _ = refl
  traffic_stream-pushed self (inr c) proxy _ = refl
  traffic_stream-pushed self (inr c) reject _ = refl

  -- What a successful `add_cidr` does to the verdict of every host: a CIDR added as `direct` makes
  -- the addresses that it covers direct and changes no other host; one added with another rule
  -- changes no host at all.
  pub traffic_stream-add_cidr :
      (self after : MatchProxy x) (cidr : Text) (c : x.v4.Cidr ⊎ x.v6.Cidr)
      (rule : TrafficStreamRule) (h : Host)
      → x.ip_cidr_from_str cidr ≡ some c
      → add_cidr x self cidr rule ≡ some after
      → traffic_stream x order after h
        ≡ with_cidr rule (covers x c h) (traffic_stream x order self h)
  traffic_stream-add_cidr self after cidr c rule h parsed added =
      let same : after ≡ pushed self c rule =
        ground (arith, added, add_cidr_parsed self cidr c rule parsed) in
      rw same (traffic_stream-pushed self c rule h)
