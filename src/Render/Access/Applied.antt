-- ===== src/Render/Access/Applied.antt =====
-- What holds of the live rules holds of those that are applied to a domain.
use edge_caddy.Prelude.{
  Bool, true, false, ◌&&◌, String, str_eq, List, [], ◌∷◌, ◌≡◌, refl, Bool-cases, inl, inr, All,
  All-append,
}
use edge_caddy.Render.Go.{Go}
use edge_caddy.Render.Resources.{Rule}
use edge_caddy.Render.Validate.{is_any, is_live}
use edge_caddy.Render.Access.{bound, rules_of}

module _ (go : Go) (P : Rule → Type 0) where
  bound-All :
      (domain : String) (rule : Rule) (ds : List String) → P rule → All P (bound go domain rule ds)
  unfolding bound
  bound-All domain rule [] p = tt
  bound-All domain rule (d ∷ ds) p = elim (Bool-cases (str_eq d domain)) [
    | inl same ↦ rw same (p, bound-All domain rule ds p)
    | inr apart ↦ rw apart (bound-All domain rule ds p)
  ]

  bound_by-All :
      (domain : String) (rule : Rule) (ds : List String)
      → (is_any ds ≡ true → P rule)
      → All P (bound go domain rule ds)
  unfolding bound
  bound_by-All domain rule [] p = tt
  bound_by-All domain rule (d ∷ ds) p = bound-All domain rule (d ∷ ds) (p refl)

  both_true : (a b : Bool) → a ≡ true → b ≡ true → (a && b) ≡ true
  both_true true b _ h = h
  both_true false b h _ = cc

  pub rules_of-All :
      (domain : String) (rules : List Rule)
      → All (λ r. is_live go r ≡ true → P r) rules
      → All P (rules_of go domain rules)
  unfolding rules_of
  rules_of-All domain [] live = tt
  rules_of-All domain (rule ∷ rules) live = elim (Bool-cases rule.enabled) [
    | inl on ↦ simp on (
        All-append P (bound go domain rule rule.apply_to) (rules_of go domain rules)
          (bound_by-All domain rule rule.apply_to (λ any. live.0 (both_true _ _ on any)))
          (rules_of-All domain rules live.1))
    | inr off ↦ simp off (rules_of-All domain rules live.1)
  ]
