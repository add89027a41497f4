-- ===== src/Traffic/Edits.antt =====
-- Sequences of edits through the public mutators of `MatchProxy`.
use kitty_proxy.Common.{
  List, [], ◌∷◌, ◌≡◌, ◌≢◌, refl, ◌∙◌, ap, none, some, inl, inr, Option-cases, if◌then◌else◌,
}
use kitty_proxy.Text.{Text}
use kitty_proxy.Types.{Host, ipv4, ipv6, domain}
use kitty_proxy.Traffic.Crates.{Deps, Order}
use kitty_proxy.Traffic.Rule.{TrafficStreamRule, direct, proxy, reject}
use kitty_proxy.Traffic.{
  MatchProxy, traffic_stream, add_cidr, push_v4, push_v6, add_root_domain, add_full_domain,
  add_domain_suffix, add_domain_preffix, reset_direct_cidr, clear_not_direct_cidr,
  delete_domain_suffix, delete_domain_preffix, delete_full_domain, delete_root_domain, insert_root,
  remove_root, root_or_empty,
}

-- The public mutators of `MatchProxy`.
pub data Edit : Type 0 where
  cidr root_domain full_domain suffix preffix : Text → TrafficStreamRule → Edit
  reset_cidr clear_cidr : Edit
  delete_suffix delete_preffix delete_full delete_root : Text → Edit

module _ (x : Deps) where
  -- A failed `add_cidr` leaves the rules as they are.
  unfoldable pub edit : MatchProxy x → Edit → MatchProxy x
  edit self (cidr c rule) = elim (add_cidr x self c rule) [ none ↦ self | some after ↦ after ]
  edit self (root_domain name rule) = add_root_domain x self name rule
  edit self (full_domain name rule) = add_full_domain x self name rule
  edit self (suffix name rule) = add_domain_suffix x self name rule
  edit self (preffix name rule) = add_domain_preffix x self name rule
  edit self reset_cidr = reset_direct_cidr x self
  edit self clear_cidr = clear_not_direct_cidr x self
  edit self (delete_suffix name) = delete_domain_suffix x self name
  edit self (delete_preffix name) = delete_domain_preffix x self name
  edit self (delete_full name) = delete_full_domain x self name
  edit self (delete_root name) = delete_root_domain x self name

  unfoldable pub edits : MatchProxy x → List Edit → MatchProxy x
  edits self [] = self
  edits self (e ∷ es) = edits (edit self e) es

  -- The copies of the direct CIDRs are those that were loaded.
  abbrev loaded : MatchProxy x → x.v4.Ranges × x.v6.Ranges
  loaded self = (self.direct_ipv4_combainer_clone, self.direct_ipv6_combainer_clone)

  push_v4-loaded :
      (self : MatchProxy x) (c : x.v4.Cidr) (rule : TrafficStreamRule)
      → loaded (push_v4 x self c rule) ≡ loaded self
  unfolding push_v4
  push_v4-loaded self c direct = refl
  push_v4-loaded self c proxy = refl
  push_v4-loaded self c reject = refl

  push_v6-loaded :
      (self : MatchProxy x) (c : x.v6.Cidr) (rule : TrafficStreamRule)
      → loaded (push_v6 x self c rule) ≡ loaded self
  unfolding push_v6
  push_v6-loaded self c direct = refl
  push_v6-loaded self c proxy = refl
  push_v6-loaded self c reject = refl

  add_cidr-loaded :
      (self : MatchProxy x) (c : Text) (rule : TrafficStreamRule)
      → loaded (edit self (cidr c rule)) ≡ loaded self
  unfolding edit
  add_cidr-loaded self c rule = elim (Option-cases (x.ip_cidr_from_str c)) [
    | inl e ↦ unfold add_cidr in rw (e, add_cidr, edit)
    | inr (inl d, e) ↦ unfold add_cidr in rw (e, add_cidr, edit) (push_v4-loaded self d rule)
    | inr (inr d, e) ↦ unfold add_cidr in rw (e, add_cidr, edit) (push_v6-loaded self d rule)
  ]

  insert_root-loaded :
      (self : MatchProxy x) (root : Text) (rule : TrafficStreamRule)
      → loaded (insert_root x self root rule) ≡ loaded self
  unfolding insert_root
  insert_root-loaded self [] rule = refl
  insert_root-loaded self (c ∷ root) rule = refl

  remove_root-loaded :
      (self : MatchProxy x) (root : Text) → loaded (remove_root x self root) ≡ loaded self
  unfolding remove_root
  remove_root-loaded self [] = refl
  remove_root-loaded self (c ∷ root) = refl

  edit-loaded : (self : MatchProxy x) (e : Edit) → loaded (edit self e) ≡ loaded self
  unfolding edit add_cidr add_root_domain add_full_domain add_domain_suffix add_domain_preffix
      reset_direct_cidr clear_not_direct_cidr delete_domain_suffix delete_domain_preffix
      delete_full_domain delete_root_domain
  edit-loaded self (cidr c rule) = add_cidr-loaded self c rule
  edit-loaded self (root_domain name rule) = insert_root-loaded self (root_or_empty x name) rule
  edit-loaded self (full_domain name rule) = refl
  edit-loaded self (suffix name rule) = refl
  edit-loaded self (preffix name rule) = refl
  edit-loaded self reset_cidr = refl
  edit-loaded self clear_cidr = refl
  edit-loaded self (delete_suffix name) = refl
  edit-loaded self (delete_preffix name) = refl
  edit-loaded self (delete_full name) = refl
  edit-loaded self (delete_root name) = remove_root-loaded self (root_or_empty x name)

  edits-loaded : (es : List Edit) (self : MatchProxy x) → loaded (edits self es) ≡ loaded self
  unfolding edits
  edits-loaded [] self = refl
  edits-loaded (e ∷ es) self = edits-loaded es (edit self e) ∙ edit-loaded self e

-- Whatever sequence of edits has been made, `reset_direct_cidr` afterwards gives every IP address the
-- verdict that a reset without those edits gives it.
pub reset-edits :
    (x : Deps) (order : Order TrafficStreamRule) (self : MatchProxy x) (es : List Edit) (h : Host)
    → ((name : Text) → h ≢ domain name)
    → traffic_stream x order (reset_direct_cidr x (edits x self es)) h
      ≡ traffic_stream x order (reset_direct_cidr x self) h
unfolding traffic_stream reset_direct_cidr
reset-edits x order self es (ipv4 a) n =
    ap (λ (r : x.v4.Ranges × x.v6.Ranges). if x.v4.contains r.0 a then direct else proxy)
      (edits-loaded x es self)
reset-edits x order self es (ipv6 a) n =
    ap (λ (r : x.v4.Ranges × x.v6.Ranges). if x.v6.contains r.1 a then direct else proxy)
      (edits-loaded x es self)
reset-edits x order self es (domain name) n = absurd (n name refl)
