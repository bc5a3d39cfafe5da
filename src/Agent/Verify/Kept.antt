-- ===== src/Agent/Verify/Kept.antt =====
-- What the cache keeps, through the requests.
use edge_caddy.Prelude.{
  ℕ, ◌≤◌, Bool, true, false, String, str_eq, Option, none, some, sym, subst, Bool-cases, inl, inr,
}
use edge_caddy.Prelude.Assoc.{Assoc, lookup}
use edge_caddy.Agent.RateLimit.{Bucket}
use edge_caddy.Agent.Verify.{AgentRule}
use edge_caddy.Agent.Verify.Calls.{Calls}
use edge_caddy.Agent.Verify.Secret.{Request, is_signed, seen_key, verify_service_secret}
use edge_caddy.Agent.Verify.Handle.{
  Verifier, Response, forbidden, handle_rule, handle_verify, handle_rate_limit, handle_geo_block,
  handle, after_allow,
}
use edge_caddy.Agent.Verify.Cache.{Keeps, admit-Keeps}
use edge_caddy.Agent.Verify.Accepts.{count_denied-seen}

module _ (calls : Calls) where
  module _ (key : String) (until now : ℕ) (early : now ≤ until) where
    verify_service_secret-Keeps :
        (rule : AgentRule) (r : Request) (seen : Assoc ℕ)
        → Keeps key until seen
        → Keeps key until (verify_service_secret calls now rule r seen).0
    unfolding verify_service_secret
    verify_service_secret-Keeps rule r seen keeps = elim (Bool-cases (is_signed calls now rule r)) [
      | inl signed ↦ elim (Bool-cases rule.replay) [
        | inl once ↦ rw signed (
            simp once (admit-Keeps key until now early (seen_key calls rule r) rule.ttl seen keeps))
        | inr often ↦ rw signed (simp often keeps)
      ]
      | inr unsigned ↦ rw unsigned keeps
    ]

    module _ (r : Request) (v : Verifier calls.Reader) (keeps : Keeps key until v.seen) where
      after_allow-Keeps :
          (rule_id : String) (rule : AgentRule) (buckets : Assoc Bucket) (ok : Bool) (wait : ℕ)
          → Keeps key until
              (after_allow calls now rule_id rule r v
                (buckets, record { is_allowed = ok; wait = wait })).0.seen
      after_allow-Keeps rule_id rule buckets true wait = keeps
      after_allow-Keeps rule_id rule buckets false wait = keeps

      handle_rate_limit-Keeps :
          (rule_id : String) (rule : AgentRule)
          → Keeps key until (handle_rate_limit calls now rule_id rule r v).0.seen
      unfolding handle_rate_limit
      handle_rate_limit-Keeps rule_id rule = after_allow-Keeps rule_id rule _ _ _

      handle_rule-Keeps :
          (rule_id : String) (rule : AgentRule)
          → Keeps key until (handle_rule calls now rule_id rule r v).0.seen
      unfolding handle_rule handle_geo_block
      handle_rule-Keeps rule_id rule = elim (Bool-cases (str_eq rule.kind "rate_limit")) [
        | inl e ↦ rw e (handle_rate_limit-Keeps rule_id rule)
        | inr a ↦ elim (Bool-cases (str_eq rule.kind "geo_block")) [
          | inl e ↦ rw (a, e) keeps
          | inr b ↦ elim (Bool-cases (str_eq rule.kind "service_secret")) [
            | inl e ↦ rw (a, b, e) (verify_service_secret-Keeps rule r v.seen keeps)
            | inr c ↦ elim (Bool-cases (str_eq rule.kind "jwt_bearer")) [
              | inl e ↦ rw (a, b, c, e) keeps
              | inr d ↦ rw (a, b, c, d) keeps
            ]
          ]
        ]
      ]

      pub handle-Keeps : Keeps key until (handle calls now r v).0.seen
      unfolding handle handle_verify
      handle-Keeps =
          subst (Keeps key until) (sym (count_denied-seen calls (handle_verify calls now r v)))
            (with_rule (lookup (calls.trim_verify r.path) v.rules))
        where
          answer : Option AgentRule → Verifier calls.Reader × Response
          answer none = (v, forbidden)
          answer (some rule) = handle_rule calls now (calls.trim_verify r.path) rule r v

          with_rule : (found : Option AgentRule) → Keeps key until (answer found).0.seen
          with_rule none = keeps
          with_rule (some rule) = handle_rule-Keeps (calls.trim_verify r.path) rule
