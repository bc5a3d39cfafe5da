-- ===== src/Agent/Verify/Sweep.antt =====
-- internal/agent/ratelimit.go: `sweepAll`, which forgets the buckets that are full or have no rule.
use edge_caddy.Prelude.{
  ℕ, ◌*◌, Bool, false, not, ◌&&◌, ◌||◌, String, str_append, str_eq, List, [], ◌∷◌, if◌then◌else◌,
}
use edge_caddy.Prelude.Int.{is_positive, magnitude}
use edge_caddy.Prelude.Assoc.{Assoc, keep_only}
use edge_caddy.Agent.RateLimit.{second, Bucket, Rate, is_full}
use edge_caddy.Agent.Verify.{AgentRule}
use edge_caddy.Agent.Verify.Calls.{Calls}

-- The limit of a rule: its requests in its window, and none at all without a window.
unfoldable pub rate_of : AgentRule → Rate
rate_of rule = record {
  burst = magnitude rule.requests;
  num = if is_positive rule.window_seconds then magnitude rule.requests else 0;
  den = magnitude rule.window_seconds * second;
}

-- A bucket's key begins with the rule's ID.
abbrev pub prefix_of : AgentRule → String
prefix_of rule = str_append rule.id "|"

abbrev pub is_limit : AgentRule → Bool
is_limit rule = str_eq rule.kind "rate_limit"

abbrev pub can_sweep : AgentRule → Bool
can_sweep rule = is_limit rule && (is_positive rule.requests && is_positive rule.window_seconds)

module _ (calls : Calls) where
  -- `sweepPrefix`
  unfoldable pub sweep_prefix : AgentRule → ℕ → Assoc Bucket → Assoc Bucket
  unfolding is_full rate_of
  sweep_prefix rule now buckets =
      keep_only (λ k b. not (calls.has_prefix k (prefix_of rule) && is_full (rate_of rule) now b))
        buckets

  -- The loop over the rules, in the order in which the map gives them.
  unfoldable pub sweep_rules : List AgentRule → ℕ → Assoc Bucket → Assoc Bucket
  unfolding sweep_prefix
  sweep_rules [] now buckets = buckets
  sweep_rules (rule ∷ rules) now buckets =
      sweep_rules rules now (if can_sweep rule then sweep_prefix rule now buckets else buckets)

  -- Some limit has a prefix of the key.
  abbrev pub is_owned : List AgentRule → String → Bool
  is_owned [] k = false
  is_owned (rule ∷ rules) k =
      (is_limit rule && calls.has_prefix k (prefix_of rule)) || is_owned rules k

  -- `dropOrphans`
  unfoldable pub drop_orphans : List AgentRule → Assoc Bucket → Assoc Bucket
  drop_orphans rules buckets = keep_only (λ k b. is_owned rules k) buckets

  -- `sweepAll`
  unfoldable pub sweep_all : List AgentRule → ℕ → Assoc Bucket → Assoc Bucket
  unfolding sweep_rules drop_orphans
  sweep_all rules now buckets = drop_orphans rules (sweep_rules rules now buckets)

abbrev pub values : Assoc AgentRule → List AgentRule
values [] = []
values ((id, rule) ∷ rules) = rule ∷ values rules
