-- ===== src/Agent/Verify/Handle.antt =====
-- internal/agent/verify.go: the state of the endpoint, and what it does with a request.
use edge_caddy.Prelude.{
  ℕ, suc, ◌/◌, Bool, not, ◌&&◌, String, str_append, str_eq, Option, none, some, List, leb, max,
  if◌then◌else◌, has,
}
use edge_caddy.Prelude.Assoc.{Assoc, lookup}
use edge_caddy.Render.Resources.{VerifyRule}
use edge_caddy.Agent.RateLimit.{second, Bucket, Reply, allow}
use edge_caddy.Agent.Verify.{AgentRule, rules_map}
use edge_caddy.Agent.Verify.Calls.{Calls}
use edge_caddy.Agent.Verify.Sweep.{rate_of, values, sweep_all}
use edge_caddy.Agent.Verify.Jwks.{KeyCache, verify_jwt}
use edge_caddy.Agent.Verify.Secret.{Request, verify_service_secret, sweep_seen}

-- `VerifyServer`; `geo` is the database that is loaded.
pub record Verifier (Reader : Type 0) : Type 0 where
  pub rules : Assoc AgentRule
  pub seen : Assoc ℕ
  pub buckets : Assoc Bucket
  pub key_caches : Assoc KeyCache
  pub geo : Option Reader
  pub rate_limited : ℕ
  pub denied : ℕ

-- The status, and the headers that are set.
pub record Response : Type 0 where
  pub status : ℕ
  pub verified_rule : Option String
  pub verified_sub : Option String
  pub retry_after : Option ℕ

abbrev pub passed : String → Option String → Response
passed rule_id sub = record {
  status = 200;
  verified_rule = some rule_id;
  verified_sub = sub;
  retry_after = none;
}

abbrev pub forbidden : Response
forbidden = record { status = 403; verified_rule = none; verified_sub = none; retry_after = none }

abbrev pub too_many : ℕ → Response
too_many seconds = record {
  status = 429;
  verified_rule = none;
  verified_sub = none;
  retry_after = some seconds;
}

-- `itoaSec`: whole seconds, at least one.
unfoldable pub retry_seconds : ℕ → ℕ
retry_seconds wait = max 1 (wait / second)

-- `geoAllows`
unfoldable pub geo_allows : String → String → List String → Bool
geo_allows country mode list =
    if str_eq mode "allow" then has country list else not (has country list)

module _ (calls : Calls) where
  abbrev or_itself : String → Option String → String
  or_itself ip none = ip
  or_itself ip (some host) = host

  -- `rateKeyOf`
  unfoldable pub rate_key_of : String → String → String → String
  rate_key_of client_ip uri mode =
      let ip = or_itself client_ip (calls.host_of client_ip) in
      if str_eq mode "ip_path" then str_append ip (str_append "|" (calls.before_query uri)) else ip

  abbrev pub lookup_country : calls.Reader → Option calls.Address → String
  lookup_country reader none = ""
  lookup_country reader (some address) = elim (calls.country_of reader address) [
    | none ↦ ""
    | some code ↦ code
  ]

  -- `Country`: `none` without a database, "" for an address that is not known.
  unfoldable pub country : Option calls.Reader → String → Option String
  country none ip = none
  country (some reader) ip = some (lookup_country reader (calls.parse_address ip))

  -- `clientIPOf`
  abbrev pub client_ip_of : Request → String
  client_ip_of r = r.get_header "X-Edge-Client-IP"

  module _ (now : ℕ) (rule_id : String) (rule : AgentRule) (r : Request)
      (v : Verifier calls.Reader) where
    abbrev pub after_allow : Assoc Bucket × Reply → Verifier calls.Reader × Response
    after_allow (buckets, reply) =
        if reply.is_allowed then (record v { buckets = buckets }, passed rule_id none) else (
          record v { buckets = buckets; rate_limited = suc v.rate_limited },
          too_many (retry_seconds reply.wait),
        )

    -- The branch of `handleVerify` for a limit on requests.
    unfoldable pub handle_rate_limit : Verifier calls.Reader × Response
    unfolding rate_key_of rate_of allow retry_seconds
    handle_rate_limit =
        let key = rate_key_of (client_ip_of r) (r.get_header "X-Forwarded-Uri") rule.rate_key in
        after_allow (allow (rate_of rule) now (str_append rule.id (str_append "|" key)) v.buckets)

    -- Without a database every request passes.
    abbrev pub geo_response : Option String → Response
    geo_response none = passed rule_id none
    geo_response (some code) =
        if geo_allows code rule.geo_mode rule.geo_countries then passed rule_id none else forbidden

    -- The branch for countries.
    unfoldable pub handle_geo_block : Verifier calls.Reader × Response
    unfolding country geo_allows
    handle_geo_block = (v, geo_response (country v.geo (client_ip_of r)))

    abbrev pub after_secret : Assoc ℕ × Bool → Verifier calls.Reader × Response
    after_secret (seen, ok) =
        (record v { seen = seen }, if ok then passed rule_id none else forbidden)

    abbrev pub sub_header : String → Option String
    sub_header sub = if str_eq sub "" then none else some sub

    abbrev pub token_response : Option String → Response
    token_response none = forbidden
    token_response (some sub) = passed rule_id (sub_header sub)

    abbrev pub after_token : Assoc KeyCache × Option String → Verifier calls.Reader × Response
    after_token (caches, sub) = (record v { key_caches = caches }, token_response sub)

    -- `handleVerify`, with the rule; a type of rule that the endpoint does not check is refused.
    unfoldable pub handle_rule : Verifier calls.Reader × Response
    unfolding handle_rate_limit handle_geo_block verify_service_secret verify_jwt
    handle_rule =
        if str_eq rule.kind "rate_limit"
        then handle_rate_limit
        else if str_eq rule.kind "geo_block"
        then handle_geo_block
        else if str_eq rule.kind "service_secret"
        then after_secret (verify_service_secret calls now rule r v.seen)
        else if str_eq rule.kind "jwt_bearer"
        then after_token (verify_jwt calls now rule (r.get_header "Authorization") v.key_caches)
        else (v, forbidden)

  -- `handleVerify`; a rule that is not there is refused.
  unfoldable pub handle_verify :
      ℕ → Request → Verifier calls.Reader → Verifier calls.Reader × Response
  unfolding handle_rule
  handle_verify now r v =
      let rule_id = calls.trim_verify r.path in
      elim (lookup rule_id v.rules) [
        | none ↦ (v, forbidden)
        | some rule ↦ handle_rule now rule_id rule r v
      ]

  abbrev pub is_success : ℕ → Bool
  is_success status = leb 200 status && leb status 299

  -- `countDenied`
  unfoldable pub count_denied : Verifier calls.Reader × Response → Verifier calls.Reader × Response
  count_denied (v, response) =
      if is_success response.status
      then (v, response)
      else (record v { denied = suc v.denied }, response)

  -- What `Handler` does with a request for `/verify/`.
  unfoldable pub handle : ℕ → Request → Verifier calls.Reader → Verifier calls.Reader × Response
  unfolding handle_verify count_denied
  handle now r v = count_denied (handle_verify now r v)

  -- `SetRules`
  unfoldable pub set_rules : List VerifyRule → Verifier calls.Reader → Verifier calls.Reader
  unfolding rules_map
  set_rules rules v = record v { rules = rules_map rules }

  -- `LoadGeoDB`, with the database that a path opens; `none` unloads it.
  unfoldable pub load_geo_db : Option calls.Reader → Verifier calls.Reader → Verifier calls.Reader
  load_geo_db reader v = record v { geo = reader }

  -- What `RunSweeper` does each time.
  unfoldable pub sweep : ℕ → Verifier calls.Reader → Verifier calls.Reader
  unfolding sweep_seen sweep_all
  sweep now v = record v {
    buckets = sweep_all calls (values v.rules) now v.buckets;
    seen = sweep_seen now v.seen;
  }
