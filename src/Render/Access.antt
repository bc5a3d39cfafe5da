-- ===== src/Render/Access.antt =====
-- internal/render/render.go: the Caddy routes of the resources.
pub mod Spec
pub mod Applied
pub mod Denials
pub mod Decision
use edge_caddy.Prelude.{
  ℕ, ◌&&◌, ltb, Bool, true, false, String, str_append, str_eq, Option, none, some, List, [], ◌∷◌,
  ◌++◌, if◌then◌else◌, has,
}
use edge_caddy.Render.Go.{Go}
use edge_caddy.Render.BodyMax.{parse_body_max}
use edge_caddy.Render.Resources.{Filter, Rule, Route}
use edge_caddy.Render.Caddy.{
  Condition, host, remote_ip, not_remote_ip, path, path_regexp, header_regexp, query, ClientCert,
  HeaderOps, Handler, abort, status_response, forward_auth, request_body, encode_gzip,
  reverse_proxy, response_headers, CaddyRoute,
}

pub record Options : Type 0 where
  pub http_listen : String
  pub https_listen : String
  pub upstream_client_cert : String
  pub upstream_client_key : String
  pub verify_addr : String
  pub log_dir : String

abbrev default_to : String → String → String
default_to value s = if str_eq s "" then value else s

-- `withDefaults`
unfoldable pub with_defaults : Options → Options
with_defaults o = record o {
  http_listen = default_to ":80" o.http_listen;
  https_listen = default_to ":443" o.https_listen;
  verify_addr = default_to "127.0.0.1:2020" o.verify_addr;
  log_dir = default_to "/var/log/caddy" o.log_dir;
}

-- The types of rules that the verification endpoint checks.
abbrev pub is_verified : String → Bool
is_verified kind = has kind ("service_secret" ∷ "jwt_bearer" ∷ "rate_limit" ∷ "geo_block" ∷ [])

abbrev suffix_of : Option Bool → String
suffix_of none = ""
suffix_of (some true) = "/32"
suffix_of (some false) = "/128"

-- `blockHandler`
unfoldable pub block_handler : String → Handler
block_handler mode =
    if str_eq mode "403"
    then status_response 403
    else if str_eq mode "404"
    then status_response 404
    else abort

-- `pathPattern`
unfoldable pub path_pattern : String → String → String
path_pattern op v =
    if str_eq op "prefix"
    then str_append v "*"
    else if str_eq op "suffix"
    then str_append "*" v
    else if str_eq op "contains"
    then str_append "*" (str_append v "*")
    else v

-- `if len(xs) == 0 { return nil }`
abbrev pub if_any : {A B : Type 0} → List A → List B → List B
if_any [] ys = []
if_any (_ ∷ _) ys = ys

module _ (go : Go) where
  -- `normalizeRanges`
  unfoldable pub normalize_ranges : List String → List String
  normalize_ranges [] = []
  normalize_ranges (e ∷ es) =
      let rest = normalize_ranges es in
      let trimmed = go.trim_space e in
      if str_eq trimmed ""
      then rest
      else if go.contains_slash trimmed
      then trimmed ∷ rest
      else str_append trimmed (suffix_of (go.parse_ip trimmed)) ∷ rest

  -- A terminal route that blocks what matches.
  abbrev pub deny : Route → List (List Condition) → List CaddyRoute
  deny r sets =
      record { match_sets = sets; handle = block_handler r.block_mode ∷ []; terminal = true } ∷ []

  -- `denyRoute`
  unfoldable pub deny_route : Route → List CaddyRoute
  unfolding normalize_ranges block_handler
  deny_route r =
      if_any r.whitelist
        (deny r ((host (r.domain ∷ []) ∷ not_remote_ip (normalize_ranges r.whitelist) ∷ []) ∷ []))

  -- `headerPattern`
  unfoldable pub header_pattern : String → String → String
  header_pattern op v =
      if str_eq op "prefix"
      then str_append "^" (go.quote_meta v)
      else if str_eq op "suffix"
      then str_append (go.quote_meta v) "$"
      else if str_eq op "regex"
      then v
      else if str_eq op "equals"
      then str_append "^" (str_append (go.quote_meta v) "$")
      else go.quote_meta v

  -- The condition of one filter; a field that is not known has none.
  unfoldable pub filter_condition : Filter → Option Condition
  unfolding path_pattern header_pattern
  filter_condition f =
      if str_eq f.field "path"
      then some (
          if str_eq f.op "regex"
          then path_regexp f.value
          else path (path_pattern f.op f.value ∷ []))
      else if str_eq f.field "user_agent"
      then some (header_regexp "User-Agent" (header_pattern f.op f.value))
      else if str_eq f.field "referer"
      then some (header_regexp "Referer" (header_pattern f.op f.value))
      else if str_eq f.field "header"
      then some (header_regexp f.name (header_pattern f.op f.value))
      else if str_eq f.field "query"
      then some (query f.name (f.value ∷ []))
      else none

  -- `filterMatchers`
  unfoldable pub filter_matchers : String → List Filter → List (List Condition)
  unfolding filter_condition
  filter_matchers domain [] = []
  filter_matchers domain (f ∷ fs) =
      let rest = filter_matchers domain fs in
      elim (filter_condition f) [ none ↦ rest | some c ↦ (host (domain ∷ []) ∷ c ∷ []) ∷ rest ]

  -- `ruleDenyRoute`
  unfoldable pub rule_deny_route : Route → Rule → List CaddyRoute
  unfolding normalize_ranges filter_matchers block_handler
  rule_deny_route r rule =
      if str_eq rule.kind "ip_whitelist"
      then if_any rule.spec.ips (
          deny r
            ((host (r.domain ∷ []) ∷ not_remote_ip (normalize_ranges rule.spec.ips) ∷ []) ∷ []))
      else if str_eq rule.kind "ip_blacklist"
      then if_any rule.spec.ips
          (deny r ((host (r.domain ∷ []) ∷ remote_ip (normalize_ranges rule.spec.ips) ∷ []) ∷ []))
      else if str_eq rule.kind "request_filter"
      then if_any rule.spec.filters (deny r (filter_matchers r.domain rule.spec.filters))
      else []

  -- `forwardAuthHandler`; the headers that it sets are the same for every rule
  unfoldable pub forward_auth_handler : Options → Rule → Handler
  forward_auth_handler opt rule = forward_auth opt.verify_addr (str_append "/verify/" rule.id)

  unfoldable pub auth_handlers : Options → List Rule → List Handler
  unfolding forward_auth_handler
  auth_handlers opt [] = []
  auth_handlers opt (rule ∷ rules) =
      let rest = auth_handlers opt rules in
      if is_verified rule.kind then forward_auth_handler opt rule ∷ rest else rest

  abbrev pub body_handlers : Option ℕ → List Handler
  body_handlers none = []
  body_handlers (some n) = if ltb 0 n then request_body n ∷ [] else []

  -- The handlers of `proxyRoute`.
  unfoldable pub proxy_handlers : Options → Route → List Rule → List Handler
  unfolding auth_handlers parse_body_max
  proxy_handlers opt r rules =
      auth_handlers opt rules
      ++ (body_handlers (parse_body_max go r.body_max)
          ++ ((if r.compress then encode_gzip ∷ [] else [])
              ++ reverse_proxy r.upstream (
                  if r.mtls
                  then some (record {
                    cert_file = opt.upstream_client_cert;
                    key_file = opt.upstream_client_key;
                  })
                  else none)
                ∷ []))

  -- `proxyRoute`
  unfoldable pub proxy_route : Options → Route → List Rule → CaddyRoute
  unfolding proxy_handlers
  proxy_route opt r rules = record {
    match_sets = (host (r.domain ∷ []) ∷ []) ∷ [];
    handle = proxy_handlers opt r rules;
    terminal = true;
  }

  -- How often a rule's `ApplyTo` names the domain: once for each.
  unfoldable pub bound : String → Rule → List String → List Rule
  bound domain rule [] = []
  bound domain rule (d ∷ ds) =
      let rest = bound domain rule ds in if str_eq d domain then rule ∷ rest else rest

  -- `rulesByDomain`, at one domain, with the rules sorted.
  unfoldable pub rules_of : String → List Rule → List Rule
  unfolding bound
  rules_of domain [] = []
  rules_of domain (rule ∷ rules) =
      let rest = rules_of domain rules in
      if rule.enabled then bound domain rule rule.apply_to ++ rest else rest

  unfoldable pub deny_routes : Route → List Rule → List CaddyRoute
  unfolding rule_deny_route
  deny_routes r [] = []
  deny_routes r (rule ∷ rules) = rule_deny_route r rule ++ deny_routes r rules

  -- The loop over the routes in `Render`.
  unfoldable pub routes_loop : Options → List Rule → List Route → List CaddyRoute
  unfolding deny_routes deny_route proxy_route rules_of
  routes_loop opt rules [] = []
  routes_loop opt rules (r ∷ rs) =
      let applied = rules_of r.domain rules in
      deny_routes r applied
      ++ (deny_route r ++ (proxy_route opt r applied ∷ routes_loop opt rules rs))

  -- A request for no known domain.
  abbrev pub fallback : CaddyRoute
  fallback = record { match_sets = []; handle = abort ∷ []; terminal = true }

  -- `caddyRoutes`
  unfoldable pub caddy_routes : Options → List Route → List Rule → List CaddyRoute
  unfolding routes_loop with_defaults
  caddy_routes opt routes rules =
      routes_loop (with_defaults opt) (go.sort_rules rules) (go.sort_routes routes) ++ fallback ∷ []
