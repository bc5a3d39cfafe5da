-- ===== src/Render/Resources.antt =====
-- internal/model/model.go: the resources as the renderer reads them.
use edge_caddy.Prelude.{Bool, String, List}
use edge_caddy.Prelude.Int.{ℤ}

pub record Filter : Type 0 where
  pub field : String
  pub name : String
  pub op : String
  pub value : String

pub record RuleSpec : Type 0 where
  pub ips : List String
  pub header : String
  pub algo : String
  pub ttl_seconds : ℤ
  pub replay_protection : Bool
  pub issuer : String
  pub audience : String
  pub jwks_url : String
  pub skew_seconds : ℤ
  pub filters : List Filter
  pub requests : ℤ
  pub window_seconds : ℤ
  pub rate_key : String
  pub geo_mode : String
  pub geo_countries : List String

-- `Type` is `kind`.
pub record Rule : Type 0 where
  pub id : String
  pub kind : String
  pub enabled : Bool
  pub apply_to : List String
  pub spec : RuleSpec
  pub secret : String

pub record Route : Type 0 where
  pub domain : String
  pub upstream : String
  pub block_mode : String
  pub mtls : Bool
  pub compress : Bool
  pub body_max : String
  pub whitelist : List String

-- What an agent is told of a rule that it verifies.
pub record VerifyRule : Type 0 where
  pub id : String
  pub kind : String
  pub header : String
  pub ttl_seconds : ℤ
  pub replay : Bool
  pub secret : String
  pub issuer : String
  pub audience : String
  pub jwks_url : String
  pub skew_seconds : ℤ
  pub requests : ℤ
  pub window_seconds : ℤ
  pub rate_key : String
  pub geo_mode : String
  pub geo_countries : List String

-- `Cert`: a certificate that is put into the configuration.
pub record Cert : Type 0 where
  pub domain : String
  pub cert_pem : String
  pub key_pem : String
