-- ===== src/Traffic/Policy.antt =====
-- What a client of `MatchProxy` (src/traffic_diversion.rs) may rely on: its mutators as updates of a
-- policy, that is, of functions, with no maps and combiners in sight.
use mathlib.Core.Path.{fun_ext}
use kitty_proxy.Common.{
  List, [], ◌∷◌, ◌≡◌, refl, ◌∙◌, ap, Bool, ◌||◌, Option, none, some, arith, inl, inr, ◌⊎◌,
  if◌then◌else◌, Option-cases,
}
use kitty_proxy.Text.{Text}
use kitty_proxy.HashMap.{HashMap, get, insert, remove}
use kitty_proxy.HashMap.Laws.{get-insert, get-remove}
use kitty_proxy.Types.{Host, ipv4, ipv6, domain, text_key}
use kitty_proxy.Traffic.Crates.{Deps}
use kitty_proxy.Traffic.Rule.{TrafficStreamRule, direct, proxy, reject}
use kitty_proxy.Traffic.Addresses.{covers}
use kitty_proxy.Traffic.{
  MatchProxy, add_cidr, add_root_domain, add_full_domain, add_domain_suffix, add_domain_preffix,
  reset_direct_cidr, clear_not_direct_cidr, delete_domain_suffix, delete_domain_preffix,
  delete_full_domain, delete_root_domain, insert_root, remove_root, root_or_empty, push_v4, push_v6,
}
use kitty_proxy.Traffic.Edits.{
  Edit, cidr, root_domain, full_domain, reset_cidr, clear_cidr, delete_suffix, delete_preffix,
  delete_full, delete_root, edit, edits,
}

-- The rule that is kept under each name, for each kind of name; and which addresses are direct, now
-- and after a reset.
pub record Policy : Type 0 where
  pub suffixes : Text → Option TrafficStreamRule
  pub preffixes : Text → Option TrafficStreamRule
  pub names : Text → Option TrafficStreamRule
  pub roots : Text → Option TrafficStreamRule
  pub is_direct : Host → Bool
  pub was_loaded : Host → Bool

abbrev pub update :
    (Text → Option TrafficStreamRule)
    → Text
    → Option TrafficStreamRule
    → Text
    → Option TrafficStreamRule
update f name rule other = if text_key.beq name other then rule else f other

-- A name without a registrable root has no rule by root.
abbrev pub update_root :
    (Text → Option TrafficStreamRule)
    → Text
    → Option TrafficStreamRule
    → Text
    → Option TrafficStreamRule
update_root f [] rule = f
update_root f (c ∷ root) rule = update f (c ∷ root) rule

module _ (x : Deps) where
  abbrev in_ranges : x.v4.Ranges → x.v6.Ranges → Host → Bool
  in_ranges r4 r6 (ipv4 a) = x.v4.contains r4 a
  in_ranges r4 r6 (ipv6 a) = x.v6.contains r6 a
  in_ranges r4 r6 (domain name) = Bool.false

  abbrev pub policy_of : MatchProxy x → Policy
  policy_of self = record {
    suffixes = get self.suffix_domain_map;
    preffixes = get self.preffix_domain_map;
    names = get self.plain_site_map;
    roots = get self.root_domain_map;
    is_direct = in_ranges self.direct_ipv4_combainer self.direct_ipv6_combainer;
    was_loaded = in_ranges self.direct_ipv4_combainer_clone self.direct_ipv6_combainer_clone;
  }

  -- Only a CIDR that is added as `direct` counts.
  pub add_direct : Policy → TrafficStreamRule → x.v4.Cidr ⊎ x.v6.Cidr → Policy
  add_direct p direct c = record p { is_direct = λ h. p.is_direct h || covers x c h }
  add_direct p proxy c = p
  add_direct p reject c = p

  -- The specification of each mutator.
  pub amend : Policy → Edit → Policy
  unfolding add_direct
  amend p (cidr c rule) = elim (x.ip_cidr_from_str c) [ none ↦ p | some d ↦ add_direct p rule d ]
  amend p (root_domain name rule) = record p {
    roots = update_root p.roots (root_or_empty x name) (some rule);
  }
  amend p (full_domain name rule) = record p { names = update p.names name (some rule) }
  amend p (Edit.suffix name rule) = record p { suffixes = update p.suffixes name (some rule) }
  amend p (Edit.preffix name rule) = record p { preffixes = update p.preffixes name (some rule) }
  amend p reset_cidr = record p { is_direct = p.was_loaded }
  amend p clear_cidr = p
  amend p (delete_suffix name) = record p { suffixes = update p.suffixes name none }
  amend p (delete_preffix name) = record p { preffixes = update p.preffixes name none }
  amend p (delete_full name) = record p { names = update p.names name none }
  amend p (delete_root name) = record p { roots = update_root p.roots (root_or_empty x name) none }

  pub amends : Policy → List Edit → Policy
  amends p [] = p
  amends p (e ∷ es) = amends (amend p e) es

  inserted :
      (m : HashMap Text TrafficStreamRule) (name : Text) (rule : TrafficStreamRule)
      → get (insert m name rule) ≡ update (get m) name (some rule)
  inserted m name rule = fun_ext λ other. get-insert m name other rule

  removed :
      (m : HashMap Text TrafficStreamRule) (name : Text)
      → get (remove m name) ≡ update (get m) name none
  removed m name = fun_ext λ other. get-remove m name other

  push : MatchProxy x → x.v4.Cidr ⊎ x.v6.Cidr → TrafficStreamRule → MatchProxy x
  push self (inl c) rule = push_v4 x self c rule
  push self (inr c) rule = push_v6 x self c rule

  is_direct-push :
      (self : MatchProxy x) (c : x.v4.Cidr ⊎ x.v6.Cidr) (h : Host)
      → (policy_of (push self c direct)).is_direct h ≡ (policy_of self).is_direct h || covers x c h
  unfolding push push_v4 push_v6
  is_direct-push self (inl c) (ipv4 a) = x.v4.contains-push self.direct_ipv4_combainer c a
  is_direct-push self (inl c) (ipv6 a) = ground arith
  is_direct-push self (inl c) (domain a) = ground arith
  is_direct-push self (inr c) (ipv4 a) = ground arith
  is_direct-push self (inr c) (ipv6 a) = x.v6.contains-push self.direct_ipv6_combainer c a
  is_direct-push self (inr c) (domain a) = ground arith

  policy_of-push :
      (self : MatchProxy x) (c : x.v4.Cidr ⊎ x.v6.Cidr) (rule : TrafficStreamRule)
      → policy_of (push self c rule) ≡ add_direct (policy_of self) rule c
  unfolding push push_v4 push_v6 add_direct
  policy_of-push self (inl c) direct =
      ap (λ f. record (policy_of self) { is_direct = f }) (fun_ext (is_direct-push self (inl c)))
  policy_of-push self (inr c) direct =
      ap (λ f. record (policy_of self) { is_direct = f }) (fun_ext (is_direct-push self (inr c)))
  policy_of-push self (inl c) proxy = refl
  policy_of-push self (inr c) proxy = refl
  policy_of-push self (inl c) reject = refl
  policy_of-push self (inr c) reject = refl

  policy_of-insert_root :
      (self : MatchProxy x) (root : Text) (rule : TrafficStreamRule)
      → policy_of (insert_root x self root rule) ≡ record (policy_of self) {
        roots = update_root (get self.root_domain_map) root (some rule);
      }
  unfolding insert_root
  policy_of-insert_root self [] rule = refl
  policy_of-insert_root self (c ∷ root) rule = rw (inserted self.root_domain_map (c ∷ root) rule)

  policy_of-remove_root :
      (self : MatchProxy x) (root : Text)
      → policy_of (remove_root x self root)
        ≡ record (policy_of self) { roots = update_root (get self.root_domain_map) root none }
  unfolding remove_root
  policy_of-remove_root self [] = refl
  policy_of-remove_root self (c ∷ root) = rw (removed self.root_domain_map (c ∷ root))

  policy_of-cidr :
      (self : MatchProxy x) (c : Text) (rule : TrafficStreamRule)
      → policy_of (edit x self (cidr c rule)) ≡ amend (policy_of self) (cidr c rule)
  unfolding edit amend add_cidr push
  policy_of-cidr self c rule = elim (Option-cases (x.ip_cidr_from_str c)) [
    | inl e ↦ rw (e, edit, add_cidr, amend)
    | inr (inl d, e) ↦ rw (e, edit, add_cidr, amend) (policy_of-push self (inl d) rule)
    | inr (inr d, e) ↦ rw (e, edit, add_cidr, amend) (policy_of-push self (inr d) rule)
  ]

  edit-amend :
      (self : MatchProxy x) (e : Edit) → policy_of (edit x self e) ≡ amend (policy_of self) e
  unfolding edit amend add_root_domain add_full_domain add_domain_suffix add_domain_preffix
      reset_direct_cidr clear_not_direct_cidr delete_domain_suffix delete_domain_preffix
      delete_full_domain delete_root_domain
  edit-amend self (cidr c rule) = policy_of-cidr self c rule
  edit-amend self (root_domain name rule) = policy_of-insert_root self (root_or_empty x name) rule
  edit-amend self (full_domain name rule) = rw (inserted self.plain_site_map name rule)
  edit-amend self (Edit.suffix name rule) = rw (inserted self.suffix_domain_map name rule)
  edit-amend self (Edit.preffix name rule) = rw (inserted self.preffix_domain_map name rule)
  edit-amend self reset_cidr = refl
  edit-amend self clear_cidr = refl
  edit-amend self (delete_suffix name) = rw (removed self.suffix_domain_map name)
  edit-amend self (delete_preffix name) = rw (removed self.preffix_domain_map name)
  edit-amend self (delete_full name) = rw (removed self.plain_site_map name)
  edit-amend self (delete_root name) = policy_of-remove_root self (root_or_empty x name)

  -- Every sequence of the mutators of `MatchProxy` does to the policy what the specification of these
  -- mutators does, one after the other.
  pub edits-amends :
      (es : List Edit) (self : MatchProxy x)
      → policy_of (edits x self es) ≡ amends (policy_of self) es
  unfolding edits amends
  edits-amends [] self = refl
  edits-amends (e ∷ es) self =
      edits-amends es (edit x self e) ∙ ap (λ p. amends p es) (edit-amend self e)
