-- ===== src/Agent/Verify.antt =====
-- internal/agent/verify.go: the endpoint of the agent that Caddy asks about the requests of a
-- protected domain. Times and durations are in nanoseconds.
pub mod Calls
pub mod Jwks
pub mod Secret
pub mod Sweep
pub mod Swept
pub mod Handle
pub mod Counts
pub mod Accepts
pub mod Keys
pub mod Tokens
pub mod Cache
pub mod Kept
pub mod Replay
pub mod Answers
mod Samples
use edge_caddy.Prelude.{ℕ, ◌*◌, Bool, true, false, String, List, [], ◌∷◌, if◌then◌else◌}
use edge_caddy.Prelude.Int.{ℤ, pos, magnitude, is_positive}
use edge_caddy.Prelude.Assoc.{Assoc, insert}
use edge_caddy.Render.Resources.{VerifyRule}
use edge_caddy.Agent.RateLimit.{second, Bucket}

-- `verifyRule`, the rule as the endpoint keeps it.
pub record AgentRule : Type 0 where
  pub id : String
  pub kind : String
  pub header : String
  pub ttl : ℕ
  pub replay : Bool
  pub secret : String
  pub issuer : String
  pub audience : String
  pub jwks_url : String
  pub skew_seconds : ℤ
  pub requests : ℤ
  pub window_seconds : ℤ
  pub rate_key : String
  pub geo_mode : String
  pub geo_countries : List String

-- Five minutes, unless the rule gives a positive time.
unfoldable pub ttl_of : ℤ → ℕ
ttl_of seconds = if is_positive seconds then magnitude seconds * second else 300 * second

unfoldable pub agent_rule : VerifyRule → AgentRule
unfolding ttl_of
agent_rule r = record {
  id = r.id;
  kind = r.kind;
  header = r.header;
  ttl = ttl_of r.ttl_seconds;
  replay = r.replay;
  secret = r.secret;
  issuer = r.issuer;
  audience = r.audience;
  jwks_url = r.jwks_url;
  skew_seconds = r.skew_seconds;
  requests = r.requests;
  window_seconds = r.window_seconds;
  rate_key = r.rate_key;
  geo_mode = r.geo_mode;
  geo_countries = r.geo_countries;
}

unfoldable pub rules_loop : Assoc AgentRule → List VerifyRule → Assoc AgentRule
unfolding agent_rule
rules_loop m [] = m
rules_loop m (r ∷ rs) = rules_loop (insert r.id (agent_rule r) m) rs

-- The map that `SetRules` makes: the rules that were there before are dropped.
unfoldable pub rules_map : List VerifyRule → Assoc AgentRule
unfolding rules_loop
rules_map rules = rules_loop [] rules
