-- ===== src/Render/VerifyRules.antt =====
-- internal/render/render.go: `VerifyRules`, the rules that a node's agent checks.
pub mod Covered
use edge_caddy.Prelude.{Bool, true, false, String, str_eq, List, [], ◌∷◌, if◌then◌else◌}
use edge_caddy.Prelude.Int.{ℤ, pos}
use edge_caddy.Render.Go.{Go}
use edge_caddy.Render.Resources.{Rule, VerifyRule}
use edge_caddy.Render.Access.{is_verified}
use edge_caddy.Render.Validate.{is_live}

-- A rule for the agent with the ID and the type of a rule, and nothing else.
abbrev blank : Rule → VerifyRule
blank r = record {
  id = r.id;
  kind = r.kind;
  header = "";
  ttl_seconds = pos 0;
  replay = false;
  secret = "";
  issuer = "";
  audience = "";
  jwks_url = "";
  skew_seconds = pos 0;
  requests = pos 0;
  window_seconds = pos 0;
  rate_key = "";
  geo_mode = "";
  geo_countries = [];
}

-- What the agent needs of a rule of one of the four types.
unfoldable pub verify_rule : Rule → VerifyRule
verify_rule r =
    if str_eq r.kind "service_secret"
    then record (blank r) {
      header = r.spec.header;
      ttl_seconds = r.spec.ttl_seconds;
      replay = r.spec.replay_protection;
      secret = r.secret;
    }
    else if str_eq r.kind "jwt_bearer"
    then record (blank r) {
      issuer = r.spec.issuer;
      audience = r.spec.audience;
      jwks_url = r.spec.jwks_url;
      skew_seconds = r.spec.skew_seconds;
    }
    else if str_eq r.kind "rate_limit"
    then record (blank r) {
      requests = r.spec.requests;
      window_seconds = r.spec.window_seconds;
      rate_key = r.spec.rate_key;
    }
    else record (blank r) { geo_mode = r.spec.geo_mode; geo_countries = r.spec.geo_countries }

module _ (go : Go) where
  -- The loop over the sorted rules.
  unfoldable pub verify_loop : List Rule → List VerifyRule
  unfolding verify_rule
  verify_loop [] = []
  verify_loop (r ∷ rs) =
      let rest = verify_loop rs in
      if is_live go r then (if is_verified r.kind then verify_rule r ∷ rest else rest) else rest

  -- `VerifyRules`
  unfoldable pub verify_rules : List Rule → List VerifyRule
  unfolding verify_loop
  verify_rules rules = verify_loop (go.sort_rules rules)
