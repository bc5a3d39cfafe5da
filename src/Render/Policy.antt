-- ===== src/Render/Policy.antt =====
-- internal/render/policy.go: the global policies.
use edge_caddy.Prelude.{
  Bool, true, false, not, ◌&&◌, String, str_append, str_eq, Option, none, some, List, [], ◌∷◌, ◌++◌,
  if◌then◌else◌, has,
}
use edge_caddy.Prelude.Int.{ℤ, pos, is_positive}
use edge_caddy.Render.Caddy.{Handler, response_headers, CaddyRoute}
use edge_caddy.Render.Validate.{named, Issue, require}

pub record TlsPolicy : Type 0 where
  pub min_version : String
  pub http3 : Bool
  pub hsts : Bool
  pub hsts_max_age : ℤ

pub record LogPolicy : Type 0 where
  pub format : String
  pub level : String
  pub roll_size : ℤ
  pub roll_keep : ℤ
  pub strip_headers : Bool
  pub rate_limit : Bool
  pub rate_rps : ℤ
  pub rate_burst : ℤ

pub record Policies : Type 0 where
  pub tls : TlsPolicy
  pub log : LogPolicy

-- `DefaultTLSPolicy`
abbrev pub default_tls_policy : TlsPolicy
default_tls_policy = record {
  min_version = "1.2";
  http3 = true;
  hsts = true;
  hsts_max_age = pos 63072000;
}

-- `DefaultLogPolicy`
abbrev pub default_log_policy : LogPolicy
default_log_policy = record {
  format = "json";
  level = "INFO";
  roll_size = pos 50;
  roll_keep = pos 5;
  strip_headers = true;
  rate_limit = false;
  rate_rps = pos 0;
  rate_burst = pos 0;
}

-- `ParsePolicies`; a parameter decodes a text over the values that it starts from, as
-- `json.Unmarshal` does.
module _ (unmarshal_tls : String → TlsPolicy → Option TlsPolicy)
    (unmarshal_log : String → LogPolicy → Option LogPolicy) where
  abbrev decode : {A : Type 0} → (String → A → Option A) → String → A → Option A
  decode unmarshal spec default = if str_eq spec "" then some default else unmarshal spec default

  unfoldable parse_policies : String → String → Option Policies
  parse_policies tls_spec log_spec = elim (decode unmarshal_tls tls_spec default_tls_policy) [
    | none ↦ none
    | some tls ↦ elim (decode unmarshal_log log_spec default_log_policy) [
      | none ↦ none
      | some log ↦ some (record { tls = tls; log = log })
    ]
  ]

-- `validatePolicies`
unfoldable pub validate_policies : Policies → List Issue
validate_policies p =
    require (has p.tls.min_version ("" ∷ "1.2" ∷ "1.3" ∷ [])) "global:tls"
      (named "spec.min_version")
    ++ (require (has p.log.format ("" ∷ "json" ∷ "console" ∷ [])) "global:log" (named "spec.format")
        ++ (require (has p.log.level ("" ∷ "DEBUG" ∷ "INFO" ∷ "WARN" ∷ "ERROR" ∷ [])) "global:log"
              (named "spec.level")
            ++ require (not p.log.rate_limit) "global:log" (named "spec.rate_limit")))

-- `tlsProtocolMin`
unfoldable pub tls_protocol_min : String → String
tls_protocol_min v = if str_eq v "1.3" then "tls1.3" else "tls1.2"

-- `serverProtocols`
unfoldable pub server_protocols : Policies → Bool → List String
server_protocols p false = "h1" ∷ []
server_protocols p true = if p.tls.http3 then "h1" ∷ "h2" ∷ "h3" ∷ [] else "h1" ∷ "h2" ∷ []

-- A number that is not positive stands for the default.
abbrev or_default : ℤ → ℤ → ℤ
or_default default n = if is_positive n then n else default

-- A handler, if there is something to do to the headers.
abbrev header_handler : Option ℤ → List String → Option Handler
header_handler none [] = none
header_handler set deletes =
    some (response_headers (record { strict_transport = set; deletes = deletes }))

-- `responseHeaderHandler`
unfoldable pub response_header_handler : Policies → Bool → Option Handler
response_header_handler p tls =
    header_handler
      (if p.tls.hsts && tls
        then some (or_default default_tls_policy.hsts_max_age p.tls.hsts_max_age)
        else none)
      (if p.log.strip_headers then "Server" ∷ "X-Powered-By" ∷ [] else [])

abbrev pub ahead_of : Option Handler → List CaddyRoute → List CaddyRoute
ahead_of none routes = routes
ahead_of (some h) routes = record { match_sets = []; handle = h ∷ []; terminal = false } ∷ routes

-- `withHeaders`
unfoldable pub with_headers : List CaddyRoute → Policies → Bool → List CaddyRoute
unfolding response_header_handler
with_headers routes p tls = ahead_of (response_header_handler p tls) routes

-- One log of Caddy's logging app.
pub record LogSink : Type 0 where
  pub name : String
  pub format : String
  pub level : Option String
  pub filename : String
  pub roll_size : ℤ
  pub roll_keep : ℤ
  pub includes : List String
  pub excludes : List String

-- `loggingApp`
unfoldable pub logging_app : Policies → String → List LogSink
logging_app p log_dir =
    let format = if str_eq p.log.format "console" then "console" else "json" in
    let level = if str_eq p.log.level "" then default_log_policy.level else p.log.level in
    let roll_size = or_default default_log_policy.roll_size p.log.roll_size in
    let roll_keep = or_default default_log_policy.roll_keep p.log.roll_keep in
    record {
      name = "default";
      format = format;
      level = some level;
      filename = str_append log_dir (str_append "/" "caddy.log");
      roll_size = roll_size;
      roll_keep = roll_keep;
      includes = [];
      excludes = "http.log.access" ∷ [];
    }
    ∷ record {
      name = "access";
      format = format;
      level = none;
      filename = str_append log_dir (str_append "/" "access.log");
      roll_size = roll_size;
      roll_keep = roll_keep;
      includes = "http.log.access" ∷ [];
      excludes = [];
    }
    ∷ []
