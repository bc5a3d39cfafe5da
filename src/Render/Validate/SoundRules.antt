-- ===== src/Render/Validate/SoundRules.antt =====
-- What holds of the rules that have no issue.
use edge_caddy.Prelude.{
  ℕ, ◌+◌, Bool, true, false, not, str_append, eq_iff, eq_refl, ap, ◌∙◌, some, none, ◌&&◌, ◌||◌,
  String, str_eq, List, [], ◌∷◌, ◌++◌, ◌≡◌, refl, sym, if◌then◌else◌, has, Bool-cases, inl, inr,
  All,
}
use edge_caddy.Render.Go.{Go}
use edge_caddy.Render.Resources.{Filter, Rule}
use edge_caddy.Render.Validate.{
  Issue, issue, require, within, needs_name, filter_op_allowed, is_any, filter_ops, filter_issues,
  filters_issues, apply_to_issues, rule_spec_issues, is_live, rule_issues, rules_issues,
}
use edge_caddy.Render.Validate.Fresh.{Fresh, append-[], require-[], is_false, and_true}
use edge_caddy.Render.Caddy.{Condition}
use edge_caddy.Render.Access.{filter_condition}
use edge_caddy.Render.Access.Spec.{is_known, all_known, has_unknown}

abbrev pub kinds : List String
kinds =
    "ip_whitelist" ∷ "ip_blacklist" ∷ "request_filter" ∷ "service_secret" ∷ "rate_limit"
    ∷ "geo_block" ∷ "jwt_bearer" ∷ []

str_eq_sym : (a b : String) → str_eq a b ≡ str_eq b a
str_eq_sym a b = both (str_eq a b) (str_eq b a) refl refl
  where
    both : (x y : Bool) → str_eq a b ≡ x → str_eq b a ≡ y → x ≡ y
    both true true e f = refl
    both false false e f = refl
    both true false e f = sym (eq_refl b) ∙ sym (ap (λ c. str_eq b c) ((eq_iff a b).0 e)) ∙ f
    both false true e f = sym e ∙ ap (λ c. str_eq a c) ((eq_iff b a).0 f) ∙ eq_refl a

module _ (go : Go) where
  -- The rules that are enabled and apply to some domain.
  abbrev pub live : List Rule → List Rule
  live [] = []
  live (rule ∷ rules) = let rest = live rules in if is_live go rule then rule ∷ rest else rest

  abbrev pub ids_of : List Rule → List String
  ids_of [] = []
  ids_of (rule ∷ rules) = rule.id ∷ ids_of rules

  known_case :
      (p u r h q : Bool) (a b c d e : Condition)
      → is_any {A = String} (
          if p || (u || (r || (h || false)))
          then "contains" ∷ "prefix" ∷ "suffix" ∷ "equals" ∷ "regex" ∷ []
          else if q
          then "equals" ∷ []
          else [])
        ≡ true
      → is_known (
          if p
          then some a
          else if u
          then some b
          else if r
          then some c
          else if h
          then some d
          else if q
          then some e
          else none)
        ≡ true
  known_case true u r h q a b c d e some_op = refl
  known_case false true r h q a b c d e some_op = refl
  known_case false false true h q a b c d e some_op = refl
  known_case false false false true q a b c d e some_op = refl
  known_case false false false false true a b c d e some_op = refl
  known_case false false false false false a b c d e some_op = cc

  filter_condition-known :
      (f : Filter) → is_any (filter_ops f.field) ≡ true → is_known (filter_condition go f) ≡ true
  unfolding filter_ops filter_condition
  filter_condition-known f some_op =
      rw
        (
          str_eq_sym f.field "path",
          str_eq_sym f.field "user_agent",
          str_eq_sym f.field "referer",
          str_eq_sym f.field "header",
        )
        (known_case (str_eq "path" f.field) (str_eq "user_agent" f.field) (str_eq "referer" f.field)
          (str_eq "header" f.field) (str_eq f.field "query") _ _ _ _ _ some_op)

  filter_issues-[] :
      (key : String) (i : ℕ) (f : Filter)
      → filter_issues go key i f ≡ []
      → is_known (filter_condition go f) ≡ true
  unfolding filter_issues
  filter_issues-[] key i f clean =
      known_field (is_any (filter_ops f.field)) refl (append-[] _ _ clean).0
    where
      known_field :
          (b : Bool)
          → is_any (filter_ops f.field) ≡ b
          → (if b
              then require
                  (not (needs_name f.field && str_eq f.name ""))
                  key
                  (within "spec.filters" i "name")
                ++ require (filter_op_allowed f.field f.op) key (within "spec.filters" i "op")
              else issue key (within "spec.filters" i "field"))
            ≡ []
          → is_known (filter_condition go f) ≡ true
      known_field true some_op none_at = filter_condition-known f some_op
      known_field false no_op some_at = cc

  filters_issues-[] :
      (key : String) (i : ℕ) (fs : List Filter)
      → filters_issues go key i fs ≡ []
      → all_known go fs ≡ true
  unfolding filters_issues
  filters_issues-[] key i [] clean = refl
  filters_issues-[] key i (f ∷ fs) clean =
      let both = append-[] _ _ clean in
      rw (filter_issues-[] key i f both.0, filters_issues-[] key (i + 1) fs both.1) refl

  second_case :
      (b c : Bool) (x y z : List Issue)
      → b ≡ false
      → c ≡ true
      → (if b then x else if c then y else z) ≡ []
      → y ≡ []
  second_case true c x y z b _ _ = cc
  second_case false true x y z _ _ h = h
  second_case false false x y z _ c _ = cc

  rule_spec_issues-[] :
      (rule : Rule) (key : String) → rule_spec_issues go rule key ≡ [] → has_unknown go rule ≡ false
  unfolding rule_spec_issues
  rule_spec_issues-[] rule key clean = elim (Bool-cases (str_eq rule.kind "request_filter")) [
    | inl filters ↦
        let no_ips =
          ap (λ k. has k ("ip_whitelist" ∷ "ip_blacklist" ∷ [])) ((eq_iff _ _).0 filters) in
        let clean_filters = append-[] _ _ (second_case _ _ _ _ _ no_ips filters clean) in
        rw (filters, filters_issues-[] key 0 rule.spec.filters clean_filters.1) refl
    | inr other ↦ rw other refl
  ]

  apply_to_issues-[] :
      (key : String) (domains : List String) (i : ℕ) (ds : List String)
      → apply_to_issues go key domains i ds ≡ []
      → All (λ d. has d domains ≡ true) ds
  unfolding apply_to_issues
  apply_to_issues-[] key domains i [] clean = tt
  apply_to_issues-[] key domains i (d ∷ ds) clean =
      let both = append-[] _ _ clean in
      (require-[] _ _ _ both.0, apply_to_issues-[] key domains (i + 1) ds both.1)

  -- The rule applies to domains that have a route, and its filters can be matched.
  abbrev pub IsSoundRule : List String → Rule → Type 0
  IsSoundRule domains rule =
      All (λ d. has d domains ≡ true) rule.apply_to × (has_unknown go rule ≡ false)

  rule_issues-[] :
      (seen domains : List String) (rule : Rule)
      → rule_issues go seen domains rule ≡ []
      → (has rule.id seen ≡ false) × IsSoundRule domains rule
  unfolding rule_issues
  rule_issues-[] seen domains rule clean =
      let first = append-[] _ _ clean in
      let key = str_append "rule:" rule.id in
      let second =
        append-[] (apply_to_issues go key domains 0 rule.apply_to) (rule_spec_issues go rule key)
          first.1 in
      (
        is_false _ (and_true _ _ (require-[] _ _ _ first.0)).1,
        (
          apply_to_issues-[] key domains 0 rule.apply_to second.0,
          rule_spec_issues-[] rule key second.1,
        ),
      )

  pub rules_issues-[] :
      (seen domains : List String) (rules : List Rule)
      → rules_issues go seen domains rules ≡ []
      → Fresh seen (ids_of (live rules)) × All (IsSoundRule domains) (live rules)
  unfolding rules_issues
  rules_issues-[] seen domains [] clean = (tt, tt)
  rules_issues-[] seen domains (rule ∷ rules) clean =
      by_liveness (is_live go rule) (rules_issues-[] seen domains rules)
        (rules_issues-[] (rule.id ∷ seen) domains rules) clean
    where
      by_liveness :
          (b : Bool)
          → (rules_issues go seen domains rules ≡ []
              → Fresh seen (ids_of (live rules)) × All (IsSoundRule domains) (live rules))
          → (rules_issues go (rule.id ∷ seen) domains rules ≡ []
              → Fresh (rule.id ∷ seen) (ids_of (live rules))
                × All (IsSoundRule domains) (live rules))
          → (if b
              then rule_issues go seen domains rule
                ++ rules_issues go (rule.id ∷ seen) domains rules
              else rules_issues go seen domains rules)
            ≡ []
          → Fresh seen (ids_of (if b then rule ∷ live rules else live rules))
            × All (IsSoundRule domains) (if b then rule ∷ live rules else live rules)
      by_liveness true skipped later clean =
          let both = append-[] _ _ clean in
          let one = rule_issues-[] seen domains rule both.0 in
          let rest = later both.1 in ((one.0, rest.0), (one.1, rest.1))
      by_liveness false skipped later clean = skipped clean

  -- What holds of the live rules, said of all.
  pub live-All :
      (P : Rule → Type 0) (rules : List Rule)
      → All P (live rules)
      → All (λ r. is_live go r ≡ true → P r) rules
  live-All P [] all = tt
  live-All P (rule ∷ rules) all = by_liveness (is_live go rule) refl (live-All P rules) all
    where
      by_liveness :
          (b : Bool)
          → is_live go rule ≡ b
          → (All P (live rules) → All (λ r. is_live go r ≡ true → P r) rules)
          → All P (if b then rule ∷ live rules else live rules)
          → (is_live go rule ≡ true → P rule) × All (λ r. is_live go r ≡ true → P r) rules
      by_liveness true on rest all = ((λ on. all.0), rest all.1)
      by_liveness false off rest all = ((λ on. cc), rest all)
