-- ===== src/Agent/Verify/Tokens.antt =====
-- The bearer tokens that the endpoint lets through, and the keys that they were checked with.
use edge_caddy.Prelude.{
  ℕ, true, String, str_eq, eq_iff, eq_refl, Option, none, some, ◌≡◌, ◌≢◌, refl, sym, ap, subst, ◌∙◌,
  Bool-cases, inl, inr, arith,
}
use edge_caddy.Prelude.Assoc.{Assoc, lookup, insert, lookup-insert}
use edge_caddy.Agent.Verify.{AgentRule}
use edge_caddy.Agent.Verify.Calls.{PublicKey, Calls}
use edge_caddy.Agent.Verify.Jwks.{
  KeyCache, key_for, cache_for, subject, parser_options, bearer_token, check_with, verify_token,
  verify_jwt,
}
use edge_caddy.Agent.Verify.Keys.{IsFreshKey, key_for-IsFreshKey}
use edge_caddy.Agent.Verify.Secret.{Request}
use edge_caddy.Agent.Verify.Handle.{
  Verifier, Response, after_token, token_response, handle_rule, handle_verify, is_success,
  count_denied, handle,
}
use edge_caddy.Agent.Verify.Accepts.{count_denied-response, handle_verify-found}

module _ (calls : Calls) where
  -- The request carries a token that passes under a key that is in the cache for the rule's URL and was
  -- fetched at most ten minutes ago.
  abbrev pub HasFreshKey : ℕ → AgentRule → Request → Assoc KeyCache → Type 0
  HasFreshKey now rule r caches =
      (raw : String) × ((kid : String) × ((c : KeyCache) × ((key : PublicKey) × ((bearer_token calls
                  (r.get_header "Authorization")
                ≡ some raw)
              × ((calls.token_kid raw ≡ some kid)
                  × ((lookup rule.jwks_url caches ≡ some c)
                      × (IsFreshKey calls now kid c key
                          × (calls.check_token (parser_options rule) key now raw ≢ none))))))))

  module _ (now : ℕ) (rule : AgentRule) (r : Request) (caches : Assoc KeyCache) (sub : String) where
    verify_token-HasFreshKey :
        (raw kid : String)
        → bearer_token calls (r.get_header "Authorization") ≡ some raw
        → calls.token_kid raw ≡ some kid
        → (verify_token calls now rule raw kid caches).1 ≡ some sub
        → HasFreshKey now rule r (verify_token calls now rule raw kid caches).0
    unfolding verify_token
    verify_token-HasFreshKey raw kid is_bearer has_kid ok =
        with_key (key_for calls now url kid (cache_for calls url caches)).1 refl ok
      where
        url : String
        url = rule.jwks_url

        cached : KeyCache
        cached = (key_for calls now url kid (cache_for calls url caches)).0

        checked : (o : Option (Option String)) → subject calls o ≡ some sub → o ≢ none
        checked none h e = absurd_sub h
          where
            absurd_sub : none ≡ some sub → ⊥
            absurd_sub h = cc
        checked (some x) h e = cc

        with_key :
            (k : Option PublicKey)
            → (key_for calls now url kid (cache_for calls url caches)).1 ≡ k
            → check_with calls now rule raw k ≡ some sub
            → HasFreshKey now rule r (insert url cached caches)
        with_key none e h = cc
        with_key (some key) e h = (
          raw,
          (
            kid,
            (
              cached,
              (
                key,
                (
                  is_bearer,
                  (
                    has_kid,
                    (
                      rw (lookup-insert url url cached caches, eq_refl url) refl,
                      (
                        key_for-IsFreshKey calls now url kid (cache_for calls url caches) key e,
                        checked _ h,
                      ),
                    ),
                  ),
                ),
              ),
            ),
          ),
        )

    abbrev after_kid : String → Option String → Assoc KeyCache × Option String
    after_kid raw none = (caches, none)
    after_kid raw (some kid) = verify_token calls now rule raw kid caches

    abbrev after_bearer : Option String → Assoc KeyCache × Option String
    after_bearer none = (caches, none)
    after_bearer (some raw) = after_kid raw (calls.token_kid raw)

    verify_jwt_lem :
        verify_jwt calls now rule (r.get_header "Authorization") caches
        ≡ after_bearer (bearer_token calls (r.get_header "Authorization"))
    unfolding verify_jwt
    verify_jwt_lem = of_bearer (bearer_token calls (r.get_header "Authorization"))
      where
        of_kid :
            (raw : String) (o : Option String)
            → (elim o [
              | none ↦ (caches, none)
              | some kid ↦ verify_token calls now rule raw kid caches
            ])
              ≡ after_kid raw o
        of_kid raw none = refl
        of_kid raw (some kid) = refl

        of_bearer :
            (o : Option String)
            → (elim o [
              | none ↦ (caches, none)
              | some raw ↦ elim (calls.token_kid raw) [
                | none ↦ (caches, none)
                | some kid ↦ verify_token calls now rule raw kid caches
              ]
            ])
              ≡ after_bearer o
        of_bearer none = refl
        of_bearer (some raw) = of_kid raw (calls.token_kid raw)

    verify_jwt-HasFreshKey :
        (verify_jwt calls now rule (r.get_header "Authorization") caches).1 ≡ some sub
        → HasFreshKey now rule r (verify_jwt calls now rule (r.get_header "Authorization") caches).0
    verify_jwt-HasFreshKey ok =
        subst (λ o. HasFreshKey now rule r o.0) (sym verify_jwt_lem)
          (of_bearer (bearer_token calls (r.get_header "Authorization")) refl
            (sym (ap (λ o. o.1) verify_jwt_lem) ∙ ok))
      where
        of_kid :
            (raw : String) (o : Option String)
            → bearer_token calls (r.get_header "Authorization") ≡ some raw
            → calls.token_kid raw ≡ o
            → (after_kid raw o).1 ≡ some sub
            → HasFreshKey now rule r (after_kid raw o).0
        of_kid raw none b e h = cc
        of_kid raw (some kid) b e h = verify_token-HasFreshKey raw kid b e h

        of_bearer :
            (o : Option String)
            → bearer_token calls (r.get_header "Authorization") ≡ o
            → (after_bearer o).1 ≡ some sub
            → HasFreshKey now rule r (after_bearer o).0
        of_bearer none e h = cc
        of_bearer (some raw) e h = of_kid raw (calls.token_kid raw) e refl h

  count_denied-key_caches :
      (out : Verifier calls.Reader × Response)
      → (count_denied calls out).0.key_caches ≡ out.0.key_caches
  unfolding count_denied
  count_denied-key_caches (v, response) = elim (Bool-cases (is_success calls response.status)) [
    | inl e ↦ rw e refl
    | inr e ↦ rw e refl
  ]

  refused_status : (n : ℕ) → n ≡ 200 → n ≡ 403 → ⊥
  refused_status n h e = omega (arith, h, e)

  module _ (now : ℕ) (r : Request) (v : Verifier calls.Reader) (rule : AgentRule) where
    handle_rule-token :
        (rule_id : String)
        → str_eq rule.kind "jwt_bearer" ≡ true
        → handle_rule calls now rule_id rule r v
          ≡ after_token calls now rule_id rule r v
              (verify_jwt calls now rule (r.get_header "Authorization") v.key_caches)
    unfolding handle_rule
    handle_rule-token rule_id token =
        rw
          (
            ap (λ k. str_eq k "rate_limit") ((eq_iff _ _).0 token),
            ap (λ k. str_eq k "geo_block") ((eq_iff _ _).0 token),
            ap (λ k. str_eq k "service_secret") ((eq_iff _ _).0 token),
            token,
          )
          refl

    -- A request for a rule on bearer tokens that is let through carries a token that passes the checks
    -- of its signature, issuer, audience and times under a key that is in the cache for the rule's
    -- JWKS URL, and was fetched at most ten minutes ago.
    pub accepted-HasFreshKey :
        lookup (calls.trim_verify r.path) v.rules ≡ some rule
        → str_eq rule.kind "jwt_bearer" ≡ true
        → (handle calls now r v).1.status ≡ 200
        → HasFreshKey now rule r (handle calls now r v).0.key_caches
    unfolding handle
    accepted-HasFreshKey found token ok =
        let rule_id = calls.trim_verify r.path in
        let jwt = verify_jwt calls now rule (r.get_header "Authorization") v.key_caches in
        let same = handle_verify-found calls now r v rule found ∙ handle_rule-token rule_id token in
        let caches : (handle calls now r v).0.key_caches ≡ jwt.0 =
          count_denied-key_caches (handle_verify calls now r v) ∙ ap (λ o. o.0.key_caches) same in
        let status : (token_response calls now rule_id rule r v jwt.1).status ≡ 200 =
          sym (
            ap (λ x. x.status)
              (count_denied-response calls (handle_verify calls now r v) ∙ ap (λ o. o.1) same))
          ∙ ok in
        subst (HasFreshKey now rule r) (sym caches) (passes jwt.1 refl status)
      where
        passes :
            (o : Option String)
            → (verify_jwt calls now rule (r.get_header "Authorization") v.key_caches).1 ≡ o
            → (token_response calls now (calls.trim_verify r.path) rule r v o).status ≡ 200
            → HasFreshKey now rule r
                (verify_jwt calls now rule (r.get_header "Authorization") v.key_caches).0
        passes none e status = absurd (refused_status _ status refl)
        passes (some sub) e status = verify_jwt-HasFreshKey now rule r v.key_caches sub e
