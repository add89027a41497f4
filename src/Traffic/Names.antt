-- ===== src/Traffic/Names.antt =====
-- Adding and deleting the rules for domains.
use mathlib.Core.Logic.Or
use kitty_proxy.Common.{[], ◌∷◌, ◌≡◌, refl, sym, ◌∙◌, ap, none}
use kitty_proxy.Text.{Text}
use kitty_proxy.Text.Contains.{IsInfix}
use kitty_proxy.HashMap.{HashMap, get, insert}
use kitty_proxy.HashMap.Laws.{remove-insert, get-insert_self}
use kitty_proxy.HashMap.Members.{mem_of_get, mem-insert}
use kitty_proxy.Types.{domain, text_key}
use kitty_proxy.Traffic.Crates.{Deps, Order}
use kitty_proxy.Traffic.Rule.{TrafficStreamRule}
use kitty_proxy.Traffic.Contained.{HasRule, contained_of_Agree}
use kitty_proxy.Traffic.{
  MatchProxy, traffic_stream, add_root_domain, add_full_domain, add_domain_suffix,
  add_domain_preffix, delete_domain_suffix, delete_domain_preffix, delete_full_domain,
  delete_root_domain, insert_root, remove_root, root_or_empty,
}

-- The four maps of rules for domains.
pub data Kind : Type 0 where
  suffix preffix full root : Kind

module _ (x : Deps) where
  abbrev pub rules : Kind → MatchProxy x → HashMap Text TrafficStreamRule
  rules suffix self = self.suffix_domain_map
  rules preffix self = self.preffix_domain_map
  rules full self = self.plain_site_map
  rules root self = self.root_domain_map

  -- The key under which a name is kept.
  abbrev pub key : Kind → Text → Text
  key suffix name = name
  key preffix name = name
  key full name = name
  key root name = root_or_empty x name

  abbrev pub add : Kind → MatchProxy x → Text → TrafficStreamRule → MatchProxy x
  add suffix = add_domain_suffix x
  add preffix = add_domain_preffix x
  add full = add_full_domain x
  add root = add_root_domain x

  abbrev pub delete : Kind → MatchProxy x → Text → MatchProxy x
  delete suffix = delete_domain_suffix x
  delete preffix = delete_domain_preffix x
  delete full = delete_full_domain x
  delete root = delete_root_domain x

  remove_root-insert_root :
      (self : MatchProxy x) (name : Text) (rule : TrafficStreamRule)
      → get self.root_domain_map name ≡ none
      → remove_root x (insert_root x self name rule) name ≡ self
  unfolding insert_root remove_root
  remove_root-insert_root self [] rule h = refl
  remove_root-insert_root self (c ∷ name) rule h =
      ap (λ m. record self { root_domain_map = m })
        (remove-insert self.root_domain_map (c ∷ name) rule h)

  -- A rule that is added under a key without one, and deleted again, leaves the rules as they were;
  -- for suffixes, prefixes, full names and registrable roots.
  pub delete-add :
      (kind : Kind) (self : MatchProxy x) (name : Text) (rule : TrafficStreamRule)
      → get (rules kind self) (key kind name) ≡ none
      → delete kind (add kind self name rule) name ≡ self
  unfolding add_domain_suffix add_domain_preffix add_full_domain add_root_domain
      delete_domain_suffix delete_domain_preffix delete_full_domain delete_root_domain
  delete-add suffix self name rule h =
      ap (λ m. record self { suffix_domain_map = m })
        (remove-insert self.suffix_domain_map name rule h)
  delete-add preffix self name rule h =
      ap (λ m. record self { preffix_domain_map = m })
        (remove-insert self.preffix_domain_map name rule h)
  delete-add full self name rule h =
      ap (λ m. record self { plain_site_map = m }) (remove-insert self.plain_site_map name rule h)
  delete-add root self name rule h = remove_root-insert_root self (root_or_empty x name) rule h

  rule_set : IsSet TrafficStreamRule
  rule_set = hlevel

  -- A suffix rule decides for every domain in which its text stands, over all rules of other kinds,
  -- if the suffix rules that speak of the domain already say the same.
  pub add_domain_suffix-decides :
      (order : Order TrafficStreamRule) (self : MatchProxy x) (name input : Text)
      (rule : TrafficStreamRule)
      → IsInfix name input
      → ((w : TrafficStreamRule) → HasRule self.suffix_domain_map input w → w ≡ rule)
      → traffic_stream x order (add_domain_suffix x self name rule) (domain input) ≡ rule
  unfolding traffic_stream add_domain_suffix
  add_domain_suffix-decides order self name input rule i agree =
      rw (contained_of_Agree order after input rule (λ v w a b. says v a ∙ sym (says w b)) here)
    where
      after : HashMap Text TrafficStreamRule
      after = insert self.suffix_domain_map name rule

      here : HasRule after input rule
      here =
          (name, mem_of_get after name rule (get-insert_self self.suffix_domain_map name rule), i)

      says : (w : TrafficStreamRule) → HasRule after input w → w ≡ rule
      says w (k, t, at) =
          Or.elim (rule_set _ _) (mem-insert self.suffix_domain_map name rule k w t) (λ e. e)
            (λ old. agree w (k, old, at))
