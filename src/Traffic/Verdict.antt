-- ===== src/Traffic/Verdict.antt =====
-- The order in which the rules for a domain are consulted, as a relation, and that
-- `traffic_stream_domain` decides by it whatever the iteration order of its maps.
use kitty_proxy.Common.{
  ◌≡◌, refl, sym, if◌then◌else◌, true, false, none, some, Bool-cases, Option-cases, inl, inr,
}
use kitty_proxy.Text.{Text}
use kitty_proxy.HashMap.{get}
use kitty_proxy.Types.{text_key}
use kitty_proxy.Traffic.Crates.{Deps, Order}
use kitty_proxy.Traffic.Rule.{TrafficStreamRule, direct, proxy}
use kitty_proxy.Traffic.{
  MatchProxy, or_else, match_contained, domain_match_cn, regex_match_cn, traffic_stream_domain,
}
use kitty_proxy.Traffic.Contained.{
  HasRule, NoRule, Agree, contained_found, contained_none, contained_of_NoRule, contained_of_Agree,
}

module _ (x : Deps) (self : MatchProxy x) (input : Text) where
  -- Neither a suffix rule nor a prefix rule speaks of the input.
  abbrev pub NoAffix : Type 0
  NoAffix = NoRule self.suffix_domain_map input × NoRule self.preffix_domain_map input

  -- Nor does a full name or a registrable root.
  abbrev pub NoName : Type 0
  NoName = NoAffix × (get self.plain_site_map input ≡ none) × (domain_match_cn x self input ≡ none)

  pub data Verdict (v : TrafficStreamRule) : Type 0 where
    by_suffix : HasRule self.suffix_domain_map input v → Verdict v
    by_preffix :
        NoRule self.suffix_domain_map input → HasRule self.preffix_domain_map input v → Verdict v
    by_name : NoAffix → get self.plain_site_map input ≡ some v → Verdict v
    by_root :
        NoAffix
        → get self.plain_site_map input ≡ none
        → domain_match_cn x self input ≡ some v
        → Verdict v
    by_regex : NoName → regex_match_cn x self input ≡ true → v ≡ direct → Verdict v
    by_default : NoName → regex_match_cn x self input ≡ false → v ≡ proxy → Verdict v

  after_name : NoName → Verdict (if regex_match_cn x self input then direct else proxy)
  after_name n = elim (Bool-cases (regex_match_cn x self input)) [
    | inl e ↦ rw e (by_regex n e refl)
    | inr e ↦ rw e (by_default n e refl)
  ]

  after_affix :
      NoAffix
      → Verdict (
          or_else (get self.plain_site_map input) (
            or_else
              (domain_match_cn x self input)
              (if regex_match_cn x self input then direct else proxy)))
  after_affix n = elim (Option-cases (get self.plain_site_map input)) [
    | inr (v, e) ↦ rw e (by_name n e)
    | inl no_name ↦ rw no_name (elim (Option-cases (domain_match_cn x self input)) [
      | inr (v, e) ↦ rw e (by_root n no_name e)
      | inl no_root ↦ rw no_root (after_name (n, no_name, no_root))
    ])
  ]

  after_suffix :
      (order : Order TrafficStreamRule)
      → NoRule self.suffix_domain_map input
      → Verdict (
          or_else (match_contained (order.iter self.preffix_domain_map) input) (
            or_else (get self.plain_site_map input) (
              or_else
                (domain_match_cn x self input)
                (if regex_match_cn x self input then direct else proxy))))
  after_suffix order n =
      elim (Option-cases (match_contained (order.iter self.preffix_domain_map) input)) [
        | inr (v, e) ↦ rw e (by_preffix n (contained_found order self.preffix_domain_map input v e))
        | inl e ↦ rw e (after_affix (n, contained_none order self.preffix_domain_map input e))
      ]

  -- The rule for a domain is that of a suffix in it, else of a prefix in it, else of its full name,
  -- else of its registrable root, else `direct` if a regular expression matches, else `proxy`; for
  -- every order in which the maps may be iterated.
  pub traffic_stream_domain-Verdict :
      (order : Order TrafficStreamRule) → Verdict (traffic_stream_domain x order self input)
  unfolding traffic_stream_domain
  traffic_stream_domain-Verdict order =
      elim (Option-cases (match_contained (order.iter self.suffix_domain_map) input)) [
        | inr (v, e) ↦ rw e (by_suffix (contained_found order self.suffix_domain_map input v e))
        | inl no_suffix ↦
            rw no_suffix
              (after_suffix order (contained_none order self.suffix_domain_map input no_suffix))
      ]

  -- If no two suffix rules and no two prefix rules disagree on the input, a verdict is the rule that
  -- `traffic_stream_domain` returns, for every iteration order.
  pub Verdict-decides :
      (order : Order TrafficStreamRule) (v : TrafficStreamRule)
      → Agree self.suffix_domain_map input
      → Agree self.preffix_domain_map input
      → Verdict v
      → traffic_stream_domain x order self input ≡ v
  unfolding traffic_stream_domain
  Verdict-decides order v s p (by_suffix a) =
      rw (contained_of_Agree order self.suffix_domain_map input v s a)
  Verdict-decides order v s p (by_preffix n a) = rw (
    contained_of_NoRule order self.suffix_domain_map input n,
    contained_of_Agree order self.preffix_domain_map input v p a,
  )
  Verdict-decides order v s p (by_name n e) = rw (
    contained_of_NoRule order self.suffix_domain_map input n.0,
    contained_of_NoRule order self.preffix_domain_map input n.1,
    e,
  )
  Verdict-decides order v s p (by_root n e h) = rw (
    contained_of_NoRule order self.suffix_domain_map input n.0,
    contained_of_NoRule order self.preffix_domain_map input n.1,
    e,
    h,
  )
  Verdict-decides order v s p (by_regex n e h) =
      rw
        (
          contained_of_NoRule order self.suffix_domain_map input n.0.0,
          contained_of_NoRule order self.preffix_domain_map input n.0.1,
          n.1,
          n.2,
          e,
        )
        (sym h)
  Verdict-decides order v s p (by_default n e h) =
      rw
        (
          contained_of_NoRule order self.suffix_domain_map input n.0.0,
          contained_of_NoRule order self.preffix_domain_map input n.0.1,
          n.1,
          n.2,
          e,
        )
        (sym h)
