-- ===== src/Traffic/Load/Said.antt =====
-- What the second loop of `from_geo_dat` in src/traffic_diversion.rs makes of the sites of the first
-- entry for "cn": the maps and the regular expressions, by what the sites say.
use kitty_proxy.Common.{
  List, [], ◌∷◌, ◌++◌, ◌≡◌, refl, subst, Bool, false, ◌||◌, none, some, arith, Option-cases,
  Bool-cases, inl, inr, if◌then◌else◌,
}
use kitty_proxy.Common.Outcome.{Outcome, ok, err, and_then-eq-ok}
use kitty_proxy.Text.{Text, text_eq}
use kitty_proxy.HashMap.{get}
use kitty_proxy.HashMap.Laws.{get-insert}
use kitty_proxy.Types.{text_key}
use kitty_proxy.V2ray.{Domain, GeoSite, SiteType, type_of}
use kitty_proxy.Traffic.Crates.{Deps}
use kitty_proxy.Traffic.Rule.{direct, proxy}
use kitty_proxy.Traffic.{regex_match, root_or_empty}
use kitty_proxy.Traffic.Load.{
  LoadError, bad_regex, is_cn, Sites, add_root, add_site, add_sites, add_geo_sites,
}

-- The sites of the first entry for "cn".
pub cn_sites : List GeoSite → List Domain
cn_sites [] = []
cn_sites (g ∷ gs) = if is_cn g.country_code then g.domain else cn_sites gs

-- Does one of the sites say so?
pub some_site : (SiteType → Text → Bool) → List Domain → Bool
some_site says [] = false
some_site says (d ∷ ds) = says (type_of d.site_type) d.value || some_site says ds

module _ (x : Deps) where
  -- A plain site is a name that goes through a node.
  pub says_name : Text → SiteType → Text → Bool
  says_name name SiteType.plain value = text_eq value name
  says_name name SiteType.regex value = false
  says_name name SiteType.domain value = false
  says_name name SiteType.full value = false

  is_root : Text → Text → Bool
  is_root root [] = false
  is_root root (c ∷ own) = text_eq (c ∷ own) root

  -- A domain site stands for its own registrable root, if it has one; a full site for a root that is
  -- the same text.
  pub says_root : Text → SiteType → Text → Bool
  unfolding is_root
  says_root root SiteType.domain value = is_root root (root_or_empty x value)
  says_root root SiteType.full value = text_eq value root
  says_root root SiteType.plain value = false
  says_root root SiteType.regex value = false

  -- A regex site is a regular expression.
  pub says_regex : Text → SiteType → Text → Bool
  says_regex input SiteType.regex value = elim (x.regex_new value) [
    | none ↦ false
    | some r ↦ x.is_match r input
  ]
  says_regex input SiteType.plain value = false
  says_regex input SiteType.domain value = false
  says_regex input SiteType.full value = false

  -- The rules after some sites, by the rules before and by what one of the sites says.
  pub record Says (one : (SiteType → Text → Bool) → Bool) (before after : Sites x) : Type 0 where
    pub names :
        (name : Text)
        → get after.plain_site_map name
          ≡ (if one (says_name name) then some proxy else get before.plain_site_map name)
    pub roots :
        (root : Text)
        → get after.root_domain_map root
          ≡ (if one (says_root root) then some direct else get before.root_domain_map root)
    pub regexes :
        (input : Text)
        → regex_match x after.direct_regex_sites input
          ≡ regex_match x before.direct_regex_sites input || one (says_regex input)

  Says-refl : (s : Sites x) → Says (λ says. false) s s
  Says-refl s = record {
    names = λ name. refl;
    roots = λ root. refl;
    regexes = λ input. ground arith;
  }

  Says-trans :
      {f g : (SiteType → Text → Bool) → Bool} {s t u : Sites x}
      → Says f s t
      → Says g t u
      → Says (λ says. f says || g says) s u
  Says-trans h k = record {
    names = λ name. ground (arith, h.names name, k.names name);
    roots = λ root. ground (arith, h.roots root, k.roots root);
    regexes = λ input. ground (arith, h.regexes input, k.regexes input);
  }

  regex_match-append :
      (rs : List x.Regex) (r : x.Regex) (input : Text)
      → regex_match x (rs ++ r ∷ []) input ≡ regex_match x rs input || x.is_match r input
  unfolding regex_match
  regex_match-append [] r input = ground arith
  regex_match-append (q ∷ rs) r input = ground (arith, regex_match-append rs r input)

  add_root-Says :
      (root : Text) (s : Sites x) (key : Text)
      → get (add_root x root s).root_domain_map key
        ≡ (if is_root key root then some direct else get s.root_domain_map key)
  unfolding add_root is_root
  add_root-Says [] s key = refl
  add_root-Says (c ∷ root) s key = get-insert s.root_domain_map (c ∷ root) key direct

  add_root_names :
      (root : Text) (s : Sites x) (name : Text)
      → get (add_root x root s).plain_site_map name ≡ get s.plain_site_map name
  unfolding add_root
  add_root_names [] s name = refl
  add_root_names (c ∷ root) s name = refl

  add_root_regexes :
      (root : Text) (s : Sites x) (input : Text)
      → regex_match x (add_root x root s).direct_regex_sites input
        ≡ regex_match x s.direct_regex_sites input || false
  unfolding add_root
  add_root_regexes [] s input = ground arith
  add_root_regexes (c ∷ root) s input = ground arith

  added :
      {one : (SiteType → Text → Bool) → Bool} (s t u : Sites x)
      → Says one s t
      → ◌≡◌ {A = Outcome LoadError (Sites x)} (ok t) (ok u)
      → Says one s u
  added {one} s t u h e = let same : t ≡ u = ground arith in subst (Says one s) same h

  add_site-Says :
      (t : SiteType) (value : Text) (s after : Sites x)
      → add_site x t value s ≡ ok after
      → Says (λ says. says t value) s after
  unfolding add_site says_name says_root says_regex
  add_site-Says SiteType.plain value s after e =
      added s _ after
        (record {
          names = λ name. get-insert s.plain_site_map value name proxy;
          roots = λ root. refl;
          regexes = λ input. ground arith;
        })
        e
  add_site-Says SiteType.regex value s after e = elim (Option-cases (x.regex_new value)) [
    | inl bad ↦ failed (rw (bad, add_site) at e)
    | inr (r, good) ↦
        added s _ after
          (record {
            names = λ name. refl;
            roots = λ root. refl;
            regexes =
                λ input. rw (good, says_regex) (regex_match-append s.direct_regex_sites r input);
          })
          (rw (good, add_site) at e)
  ]
    where
      failed :
          ◌≡◌ {A = Outcome LoadError (Sites x)} (err (bad_regex value)) (ok after)
          → Says (λ says. says SiteType.regex value) s after
      failed e = cc
  add_site-Says SiteType.domain value s after e =
      added s _ after
        (record {
          names = λ name. add_root_names (root_or_empty x value) s name;
          roots = λ root. add_root-Says (root_or_empty x value) s root;
          regexes = λ input. add_root_regexes (root_or_empty x value) s input;
        })
        e
  add_site-Says SiteType.full value s after e =
      added s _ after
        (record {
          names = λ name. refl;
          roots = λ root. get-insert s.root_domain_map value root direct;
          regexes = λ input. ground arith;
        })
        e

  add_sites-Says :
      (ds : List Domain) (s after : Sites x)
      → add_sites x ds s ≡ ok after
      → Says (λ says. some_site says ds) s after
  unfolding add_sites some_site
  add_sites-Says [] s after e = added s s after (Says-refl s) e
  add_sites-Says (d ∷ ds) s after e =
      let (first, head, tail) =
        and_then-eq-ok (add_site x (type_of d.site_type) d.value s) (add_sites x ds) e in
      Says-trans (add_site-Says (type_of d.site_type) d.value s first head)
        (add_sites-Says ds first after tail)

  pub add_geo_sites-Says :
      (gs : List GeoSite) (s after : Sites x)
      → add_geo_sites x gs s ≡ ok after
      → Says (λ says. some_site says (cn_sites gs)) s after
  unfolding add_geo_sites cn_sites some_site
  add_geo_sites-Says [] s after e = added s s after (Says-refl s) e
  add_geo_sites-Says (g ∷ gs) s after e = elim (Bool-cases (is_cn g.country_code)) [
    | inl cn ↦ rw (cn, cn_sites) (add_sites-Says g.domain s after (rw (cn, add_geo_sites) at e))
    | inr other ↦
        rw (other, cn_sites) (add_geo_sites-Says gs s after (rw (other, add_geo_sites) at e))
  ]
