-- ===== src/Agent/Verify/Counts.antt =====
-- The answers of the endpoint, and how it counts them.
use edge_caddy.Prelude.{
  ℕ, suc, ◌/◌, ◌≤◌, max, Bool, true, false, String, str_eq, Option, none, some, ◌≡◌, ◌⊎◌, refl, ap,
  inl, inr, if◌then◌else◌, Bool-cases, arith,
}
use edge_caddy.Prelude.Assoc.{Assoc, lookup}
use edge_caddy.Agent.RateLimit.{second, Bucket}
use edge_caddy.Agent.Verify.{AgentRule}
use edge_caddy.Agent.Verify.Calls.{Calls}
use edge_caddy.Agent.Verify.Jwks.{verify_jwt, KeyCache}
use edge_caddy.Agent.Verify.Secret.{Request, verify_service_secret}
use edge_caddy.Agent.Verify.Handle.{
  Verifier, Response, forbidden, retry_seconds, after_allow, handle_rate_limit, geo_response,
  handle_geo_block, geo_allows, after_secret, after_token, handle_rule, handle_verify, count_denied,
  handle,
}

module _ {Reader : Type 0} where
  -- What an answer does to the two counters, given those before: a request that passes is answered with
  -- 200, one that is refused with 403, and one over the limit with 429 and a wait of at least a second.
  abbrev pub CountsAs : Bool → Verifier Reader → Verifier Reader × Response → Type 0
  CountsAs counted v (after, response) =
      ((response.status ≡ 200)
        × ((after.denied ≡ v.denied) × (after.rate_limited ≡ v.rate_limited)))
      ⊎ (((response.status ≡ 403)
            × ((after.denied ≡ (if counted then suc v.denied else v.denied))
                × (after.rate_limited ≡ v.rate_limited)))
          ⊎ ((response.status ≡ 429)
              × ((after.denied ≡ (if counted then suc v.denied else v.denied))
                  × ((after.rate_limited ≡ suc v.rate_limited)
                      × ((n : ℕ) × ((response.retry_after ≡ some n) × (1 ≤ n)))))))

module _ (calls : Calls) where
  module _ (now : ℕ) (rule_id : String) (rule : AgentRule) (r : Request)
      (v : Verifier calls.Reader) where
    after_allow-CountsAs :
        (buckets : Assoc Bucket) (ok : Bool) (wait : ℕ)
        → CountsAs false v (
            after_allow calls now rule_id rule r v
              (buckets, record { is_allowed = ok; wait = wait }))
    unfolding retry_seconds
    after_allow-CountsAs buckets true wait = inl (refl, (refl, refl))
    after_allow-CountsAs buckets false wait =
        inr (inr (refl, (refl, (refl, (max 1 (wait / second), (refl, omega arith))))))

    geo_response-CountsAs :
        (code : Option String) → CountsAs false v (v, geo_response calls now rule_id rule r v code)
    geo_response-CountsAs none = inl (refl, (refl, refl))
    geo_response-CountsAs (some code) =
        elim (Bool-cases (geo_allows code rule.geo_mode rule.geo_countries)) [
          | inl ok ↦ rw ok (inl (refl, (refl, refl)))
          | inr refused ↦ rw refused (inr (inl (refl, (refl, refl))))
        ]

    after_secret-CountsAs :
        (seen : Assoc ℕ) (ok : Bool)
        → CountsAs false v (after_secret calls now rule_id rule r v (seen, ok))
    after_secret-CountsAs seen true = inl (refl, (refl, refl))
    after_secret-CountsAs seen false = inr (inl (refl, (refl, refl)))

    after_token-CountsAs :
        (caches : Assoc KeyCache) (sub : Option String)
        → CountsAs false v (after_token calls now rule_id rule r v (caches, sub))
    after_token-CountsAs caches none = inr (inl (refl, (refl, refl)))
    after_token-CountsAs caches (some sub) = inl (refl, (refl, refl))

    handle_rule-CountsAs : CountsAs false v (handle_rule calls now rule_id rule r v)
    unfolding handle_rule handle_rate_limit handle_geo_block
    handle_rule-CountsAs = elim (Bool-cases (str_eq rule.kind "rate_limit")) [
      | inl e ↦ rw e (after_allow-CountsAs _ _ _)
      | inr a ↦ elim (Bool-cases (str_eq rule.kind "geo_block")) [
        | inl e ↦ rw (a, e) (geo_response-CountsAs _)
        | inr b ↦ elim (Bool-cases (str_eq rule.kind "service_secret")) [
          | inl e ↦
              rw (a, b, e)
                (after_secret-CountsAs (verify_service_secret calls now rule r v.seen).0 _)
          | inr c ↦ elim (Bool-cases (str_eq rule.kind "jwt_bearer")) [
            | inl e ↦
                rw (a, b, c, e)
                  (after_token-CountsAs
                    (verify_jwt calls now rule (r.get_header "Authorization") v.key_caches).0 _)
            | inr d ↦ rw (a, b, c, d) (inr (inl (refl, (refl, refl))))
          ]
        ]
      ]
    ]

  handle_verify-CountsAs :
      (now : ℕ) (r : Request) (v : Verifier calls.Reader)
      → CountsAs false v (handle_verify calls now r v)
  unfolding handle_verify
  handle_verify-CountsAs now r v = with_rule (lookup (calls.trim_verify r.path) v.rules)
    where
      with_rule :
          (found : Option AgentRule)
          → CountsAs false v (elim found [
            | none ↦ (v, forbidden)
            | some rule ↦ handle_rule calls now (calls.trim_verify r.path) rule r v
          ])
      with_rule none = inr (inl (refl, (refl, refl)))
      with_rule (some rule) = handle_rule-CountsAs now (calls.trim_verify r.path) rule r v

  -- Every request is answered with 200, 403 or 429. One that is answered with 200 leaves both counters
  -- as they are, one with 403 is counted as denied, and one with 429 is counted as denied and as
  -- limited, and is told to wait for at least one second.
  pub handle-CountsAs :
      (now : ℕ) (r : Request) (v : Verifier calls.Reader) → CountsAs true v (handle calls now r v)
  unfolding handle count_denied
  handle-CountsAs now r v = elim (handle_verify-CountsAs now r v) [
    | inl p ↦ rw p.0 (inl (p.0, p.1))
    | inr (inl f) ↦ rw f.0 (inr (inl (f.0, (ap suc f.1.0, f.1.1))))
    | inr (inr l) ↦ rw l.0 (inr (inr (l.0, (ap suc l.1.0, (l.1.1.0, l.1.1.1)))))
  ]
