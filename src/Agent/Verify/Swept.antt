-- ===== src/Agent/Verify/Swept.antt =====
-- The sweeper changes no answer of a limit that is in force.
use edge_caddy.Prelude.{
  ℕ, ◌≤◌, Bool, true, false, not, ◌&&◌, ◌||◌, String, Option, none, some, List, [], ◌∷◌, ◌≡◌, ◌⊎◌,
  refl, sym, ap, subst, ◌∙◌, if◌then◌else◌, Bool-cases, inl, inr, All, ◌==◌,
}
use edge_caddy.Prelude.Assoc.{
  Assoc, lookup, Distinct, if_kept, lookup-keep_only, keep_only-Distinct,
}
use edge_caddy.Agent.RateLimit.{Bucket, refill, spend, is_full, allow}
use edge_caddy.Agent.RateLimit.Waiting.{swept_as_new}
use edge_caddy.Agent.Verify.{AgentRule}
use edge_caddy.Agent.Verify.Calls.{Calls}
use edge_caddy.Agent.Verify.Accepts.{and_true}
use edge_caddy.Agent.Verify.Sweep.{
  rate_of, prefix_of, can_sweep, is_owned, sweep_prefix, sweep_rules, drop_orphans, sweep_all,
}

module _ (calls : Calls) (rule : AgentRule) (key : String) (now later : ℕ)
    (after : now ≤ later) where
  -- The bucket that a later request gets.
  abbrev filled : Assoc Bucket → Bucket
  filled buckets = refill (rate_of rule) later (lookup key buckets)

  -- The rule is this one, or has no prefix of the key.
  abbrev pub IsOther : AgentRule → Type 0
  IsOther r = (r ≡ rule) ⊎ (calls.has_prefix key (prefix_of r) ≡ false)

  sweep_prefix-filled :
      (r : AgentRule) (buckets : Assoc Bucket)
      → IsOther r
      → Distinct buckets
      → filled (sweep_prefix calls r now buckets) ≡ filled buckets
  unfolding sweep_prefix
  sweep_prefix-filled r buckets other d =
      ap (refill (rate_of rule) later) (lookup-keep_only _ key buckets d)
      ∙ kept (lookup key buckets)
    where
      forgets : AgentRule → Bucket → Bool
      forgets x b = calls.has_prefix key (prefix_of x) && is_full (rate_of x) now b

      one_kept :
          (b : Bucket) (o : Bool)
          → forgets r b ≡ o
          → refill (rate_of rule) later (if not o then some b else none)
            ≡ refill (rate_of rule) later (some b)
      one_kept b false e = refl
      one_kept b true e =
          let both = and_true _ _ e in
          elim other [
            | inl same ↦ sym (
                swept_as_new (rate_of rule) now later b
                  (subst (λ x. is_full (rate_of x) now b ≡ true) same both.1) after)
            | inr none_of ↦ cc
          ]

      kept :
          (o : Option Bucket)
          → refill (rate_of rule) later (
              if_kept
                (λ k b. not (calls.has_prefix k (prefix_of r) && is_full (rate_of r) now b))
                key
                o)
            ≡ refill (rate_of rule) later o
      kept none = refl
      kept (some b) = one_kept b (forgets r b) refl

  sweep_prefix-Distinct :
      (r : AgentRule) (buckets : Assoc Bucket)
      → Distinct buckets
      → Distinct (sweep_prefix calls r now buckets)
  unfolding sweep_prefix
  sweep_prefix-Distinct r buckets d = keep_only-Distinct _ buckets d

  sweep_rules-filled :
      (rules : List AgentRule) (buckets : Assoc Bucket)
      → All IsOther rules
      → Distinct buckets
      → (filled (sweep_rules calls rules now buckets) ≡ filled buckets)
        × Distinct (sweep_rules calls rules now buckets)
  unfolding sweep_rules
  sweep_rules-filled [] buckets other d = (refl, d)
  sweep_rules-filled (r ∷ rules) buckets other d = elim (Bool-cases (can_sweep r)) [
    | inl swept ↦
        let rest =
          sweep_rules-filled rules (sweep_prefix calls r now buckets) other.1
            (sweep_prefix-Distinct r buckets d) in
        rw swept (rest.0 ∙ sweep_prefix-filled r buckets other.0 d, rest.1)
    | inr skip ↦ rw skip (sweep_rules-filled rules buckets other.1 d)
  ]

  drop_orphans-filled :
      (rules : List AgentRule) (buckets : Assoc Bucket)
      → is_owned calls rules key ≡ true
      → Distinct buckets
      → filled (drop_orphans calls rules buckets) ≡ filled buckets
  unfolding drop_orphans
  drop_orphans-filled rules buckets owned d =
      ap (refill (rate_of rule) later)
        (lookup-keep_only _ key buckets d ∙ kept (lookup key buckets))
    where
      kept : (o : Option Bucket) → if_kept (λ k b. is_owned calls rules k) key o ≡ o
      kept none = refl
      kept (some b) = rw owned refl

  allow-filled :
      (swept buckets : Assoc Bucket)
      → filled swept ≡ filled buckets
      → (allow (rate_of rule) later key swept).1 ≡ (allow (rate_of rule) later key buckets).1
  unfolding allow
  allow-filled swept buckets same =
      elim (Bool-cases ((rate_of rule).burst == 0 || (rate_of rule).num == 0)) [
        | inl unlimited ↦ rw unlimited refl
        | inr limited ↦ rw limited (ap (λ b. (spend (rate_of rule) b).1) same)
      ]

  -- Where no other rule has a prefix of a key, the sweeper changes no later answer for the key, as long
  -- as its own rule is there.
  pub allow-sweep_all :
      (rules : List AgentRule) (buckets : Assoc Bucket)
      → All IsOther rules
      → is_owned calls rules key ≡ true
      → Distinct buckets
      → (allow (rate_of rule) later key (sweep_all calls rules now buckets)).1
        ≡ (allow (rate_of rule) later key buckets).1
  unfolding sweep_all
  allow-sweep_all rules buckets other owned d =
      let swept = sweep_rules-filled rules buckets other d in
      allow-filled _ buckets
        (drop_orphans-filled rules (sweep_rules calls rules now buckets) owned swept.1 ∙ swept.0)
