-- ===== src/Agent/Verify/Accepts.antt =====
-- The requests that the endpoint lets through under a shared secret.
use edge_caddy.Prelude.{
  ℕ, suc, ◌+◌, ◌*◌, ◌≤◌, Bool, true, false, not, ◌&&◌, String, str_eq, eq_iff, leb, Option, none,
  some, ◌≡◌, refl, sym, ap, ◌∙◌, if◌then◌else◌, Bool-cases, inl, inr, arith,
}
use edge_caddy.Prelude.Int.{ℤ, pos, negsuc}
use edge_caddy.Prelude.Assoc.{Assoc, lookup}
use edge_caddy.Agent.RateLimit.{second}
use edge_caddy.Agent.Verify.{AgentRule}
use edge_caddy.Agent.Verify.Calls.{Calls}
use edge_caddy.Agent.Verify.Secret.{
  Request, Parts, header_parts, outside_window, in_window, is_signed, message, seen_key, admit,
  verify_service_secret,
}
use edge_caddy.Agent.Verify.Handle.{
  Verifier, Response, passed, forbidden, is_success, after_secret, handle_rule, handle_verify,
  count_denied, handle,
}

-- The time of a signature is within the window around now.
abbrev pub IsNear : ℕ → ℕ → ℤ → Type 0
IsNear now ttl (pos sec) = (sec * second ≤ now + ttl) × (now ≤ sec * second + ttl)
IsNear now ttl (negsuc sec) = now + suc sec * second ≤ ttl

in_window-IsNear :
    (now ttl : ℕ) (sec : ℤ) → not (outside_window now ttl sec) ≡ true → IsNear now ttl sec
unfolding outside_window
in_window-IsNear now ttl (pos sec) inside = ground arith
in_window-IsNear now ttl (negsuc sec) inside = ground arith

abbrev pub status_of : Bool → ℕ
status_of ok = if ok then 200 else 403

pub and_true : (a b : Bool) → (a && b) ≡ true → (a ≡ true) × (b ≡ true)
and_true true b h = (refl, h)
and_true false b h = cc

module _ (calls : Calls) where
  -- The signature's header of a request, taken apart.
  abbrev pub parts_of : AgentRule → Request → Parts
  parts_of rule r = header_parts calls (r.get_header rule.header)

  -- The request carries the HMAC of its time, method and URI under the rule's secret, and the time
  -- is within the rule's window around now.
  abbrev pub IsSigned : ℕ → AgentRule → Request → Type 0
  IsSigned now rule r =
      let p = parts_of rule r in
      (calls.hmac_hex rule.secret (message calls p.ts r) ≡ p.sig)
      × ((sec : ℤ) × ((calls.parse_int p.ts ≡ some sec) × IsNear now rule.ttl sec))

  is_signed-IsSigned :
      (now : ℕ) (rule : AgentRule) (r : Request)
      → is_signed calls now rule r ≡ true
      → IsSigned now rule r
  unfolding is_signed
  is_signed-IsSigned now rule r signed =
      let p = parts_of rule r in
      let rest = (and_true _ _ (and_true _ _ signed).1).1 in
      ((eq_iff _ _).0 (and_true _ _ rest).1, near (calls.parse_int p.ts) (and_true _ _ rest).0)
    where
      near :
          (o : Option ℤ)
          → in_window calls now rule.ttl o ≡ true
          → (sec : ℤ) × ((o ≡ some sec) × IsNear now rule.ttl sec)
      near none inside = cc
      near (some sec) inside = (sec, (refl, in_window-IsNear now rule.ttl sec inside))

  pub count_denied-response :
      (out : Verifier calls.Reader × Response) → (count_denied calls out).1 ≡ out.1
  unfolding count_denied
  count_denied-response (v, response) = elim (Bool-cases (is_success calls response.status)) [
    | inl e ↦ rw e refl
    | inr e ↦ rw e refl
  ]

  pub count_denied-seen :
      (out : Verifier calls.Reader × Response) → (count_denied calls out).0.seen ≡ out.0.seen
  unfolding count_denied
  count_denied-seen (v, response) = elim (Bool-cases (is_success calls response.status)) [
    | inl e ↦ rw e refl
    | inr e ↦ rw e refl
  ]

  module _ (now : ℕ) (r : Request) (v : Verifier calls.Reader) (rule : AgentRule) where
    handle_rule-secret :
        (rule_id : String)
        → str_eq rule.kind "service_secret" ≡ true
        → handle_rule calls now rule_id rule r v
          ≡ after_secret calls now rule_id rule r v (verify_service_secret calls now rule r v.seen)
    unfolding handle_rule
    handle_rule-secret rule_id secret =
        rw
          (
            ap (λ k. str_eq k "rate_limit") ((eq_iff _ _).0 secret),
            ap (λ k. str_eq k "geo_block") ((eq_iff _ _).0 secret),
            secret,
          )
          refl

    pub handle_verify-found :
        lookup (calls.trim_verify r.path) v.rules ≡ some rule
        → handle_verify calls now r v ≡ handle_rule calls now (calls.trim_verify r.path) rule r v
    unfolding handle_verify
    handle_verify-found found =
        ap
          (λ o. elim o [
            | none ↦ (v, forbidden)
            | some x ↦ handle_rule calls now (calls.trim_verify r.path) x r v
          ])
          found

    handle_verify-secret :
        lookup (calls.trim_verify r.path) v.rules ≡ some rule
        → str_eq rule.kind "service_secret" ≡ true
        → handle_verify calls now r v
          ≡ after_secret calls now
              (calls.trim_verify r.path)
              rule
              r
              v
              (verify_service_secret calls now rule r v.seen)
    handle_verify-secret found secret = handle_verify-found found ∙ handle_rule-secret _ secret

    pub status-secret :
        lookup (calls.trim_verify r.path) v.rules ≡ some rule
        → str_eq rule.kind "service_secret" ≡ true
        → (handle calls now r v).1.status
          ≡ status_of (verify_service_secret calls now rule r v.seen).1
    unfolding handle
    status-secret found secret =
        ap (λ x. x.status)
          (count_denied-response (handle_verify calls now r v)
            ∙ ap (λ o. o.1) (handle_verify-secret found secret))
        ∙ either (verify_service_secret calls now rule r v.seen).1
      where
        either :
            (b : Bool)
            → (if b then passed (calls.trim_verify r.path) none else forbidden).status ≡ status_of b
        either true = refl
        either false = refl

    pub seen-secret :
        lookup (calls.trim_verify r.path) v.rules ≡ some rule
        → str_eq rule.kind "service_secret" ≡ true
        → (handle calls now r v).0.seen ≡ (verify_service_secret calls now rule r v.seen).0
    unfolding handle
    seen-secret found secret =
        count_denied-seen (handle_verify calls now r v)
        ∙ ap (λ o. o.0.seen) (handle_verify-secret found secret)

    pub ok_if_200 : (b : Bool) → status_of b ≡ 200 → b ≡ true
    ok_if_200 true h = refl
    ok_if_200 false h = ap (λ n. leb n 300) h

    -- What `verify_service_secret` lets through is signed, and new to the cache where that is asked for.
    pub verified-parts :
        (seen : Assoc ℕ)
        → (verify_service_secret calls now rule r seen).1 ≡ true
        → (is_signed calls now rule r ≡ true)
          × ((if rule.replay then (admit now (seen_key calls rule r) rule.ttl seen).1 else true)
              ≡ true)
    unfolding verify_service_secret
    verified-parts seen ok = ground arith

    -- A request for a rule with a shared secret that is let through carries the HMAC of its time,
    -- method and URI under the secret, with a time that is within the rule's window around now.
    pub accepted-IsSigned :
        lookup (calls.trim_verify r.path) v.rules ≡ some rule
        → str_eq rule.kind "service_secret" ≡ true
        → (handle calls now r v).1.status ≡ 200
        → IsSigned now rule r
    accepted-IsSigned found secret ok =
        is_signed-IsSigned now rule r
          (verified-parts v.seen (ok_if_200 _ (sym (status-secret found secret) ∙ ok))).0
