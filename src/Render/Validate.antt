-- ===== src/Render/Validate.antt =====
-- internal/render/render.go: `Validate`. The text of an issue's reason is left out.
pub mod Fresh
pub mod SoundRoutes
pub mod SoundRules
pub mod Sound
use edge_caddy.Prelude.{
  ℕ, ◌+◌, Bool, true, false, not, ◌&&◌, ◌||◌, leb, ◌==◌, String, str_append, str_eq, Option, none,
  some, List, [], ◌∷◌, ◌++◌, if◌then◌else◌, has,
}
use edge_caddy.Prelude.Int.{ℤ, pos, negsuc, is_positive, is_negative}
use edge_caddy.Render.Go.{Go}
use edge_caddy.Render.BodyMax.{parse_body_max}
use edge_caddy.Render.Resources.{Filter, Rule, Route}
use Prim.Native.String.{len, char_at}
use Prim.Native.Char.{code}

-- The field that an issue is about: `whitelist[2]` and `spec.filters[0].op` have a position.
pub data Field : Type 0 where
  named : String → Field
  indexed : String → ℕ → Field
  within : String → ℕ → String → Field

pub record Issue : Type 0 where
  pub res_key : String
  pub field : Field

abbrev issue : String → Field → List Issue
issue key field = record { res_key = key; field = field } ∷ []

-- An issue, if the test fails.
abbrev pub require : Bool → String → Field → List Issue
require true key field = []
require false key field = issue key field

abbrev pub is_any : {A : Type 0} → List A → Bool
is_any [] = false
is_any (_ ∷ _) = true

-- `FilterFieldOps`
unfoldable pub filter_ops : String → List String
filter_ops field =
    if has field ("path" ∷ "user_agent" ∷ "referer" ∷ "header" ∷ [])
    then "contains" ∷ "prefix" ∷ "suffix" ∷ "equals" ∷ "regex" ∷ []
    else if str_eq field "query"
    then "equals" ∷ []
    else []

-- `FilterFieldsNeedingName`
abbrev pub needs_name : String → Bool
needs_name field = has field ("header" ∷ "query" ∷ [])

-- `FilterOpAllowed`
unfoldable pub filter_op_allowed : String → String → Bool
unfolding filter_ops
filter_op_allowed field op = has op (filter_ops field)

abbrev is_upper : ℕ → Bool
is_upper c = leb 65 c && leb c 90

-- Two capital letters.
unfoldable pub is_country : String → Bool
is_country c = (len c == 2) && (is_upper (code (char_at c 0)) && is_upper (code (char_at c 1)))

abbrev is_port : Option ℤ → Bool
is_port (some (pos n)) = leb 1 n && leb n 65535
is_port _ = false

abbrev has_host_and_port : (String → Option ℤ) → Option (String × String) → Bool
has_host_and_port atoi none = false
has_host_and_port atoi (some (host, port)) = not (str_eq host "") && is_port (atoi port)

module _ (go : Go) where
  -- `validateUpstream`
  unfoldable pub is_upstream : String → Bool
  is_upstream u = not (str_eq u "") && has_host_and_port go.atoi (go.split_host_port u)

  abbrev parses : Option Bool → Bool
  parses none = false
  parses (some _) = true

  -- `validCIDROrIP`
  unfoldable pub is_cidr_or_ip : String → Bool
  is_cidr_or_ip e =
      let trimmed = go.trim_space e in
      if str_eq trimmed ""
      then false
      else if go.contains_slash trimmed
      then go.parses_cidr trimmed
      else parses (go.parse_ip trimmed)

  -- The loop over a list of addresses, from a position on.
  unfoldable pub address_issues : String → String → ℕ → List String → List Issue
  unfolding is_cidr_or_ip
  address_issues key field i [] = []
  address_issues key field i (e ∷ es) =
      require (is_cidr_or_ip e) key (indexed field i) ++ address_issues key field (i + 1) es

  abbrev body_max_ok : String → Option ℕ → Bool
  body_max_ok s none = str_eq s ""
  body_max_ok s (some _) = true

  -- The checks of one route, with the domains of those before it.
  unfoldable pub route_issues : List String → Route → List Issue
  unfolding is_upstream address_issues parse_body_max
  route_issues seen r =
      let key = str_append "route:" r.domain in
      require (not (str_eq r.domain "") && (go.is_domain r.domain && not (has r.domain seen))) key
        (named "domain")
      ++ (require (is_upstream r.upstream) key (named "upstream")
          ++ (require (has r.block_mode ("abort" ∷ "403" ∷ "404" ∷ "" ∷ [])) key
                (named "block_mode")
              ++ (require (body_max_ok r.body_max (parse_body_max go r.body_max)) key
                    (named "body_max")
                  ++ address_issues key "whitelist" 0 r.whitelist)))

  unfoldable pub routes_issues : List String → List Route → List Issue
  unfolding route_issues
  routes_issues seen [] = []
  routes_issues seen (r ∷ rs) = route_issues seen r ++ routes_issues (r.domain ∷ seen) rs

  -- The checks of one filter, at its position.
  unfoldable pub filter_issues : String → ℕ → Filter → List Issue
  unfolding filter_op_allowed filter_ops
  filter_issues key i f =
      (if is_any (filter_ops f.field)
        then require (not (needs_name f.field && str_eq f.name "")) key
            (within "spec.filters" i "name")
          ++ require (filter_op_allowed f.field f.op) key (within "spec.filters" i "op")
        else issue key (within "spec.filters" i "field"))
      ++ (require (not (str_eq f.op "regex") || go.compiles f.value) key
            (within "spec.filters" i "value")
          ++ require (not (str_eq f.value "")) key (within "spec.filters" i "value"))

  unfoldable pub filters_issues : String → ℕ → List Filter → List Issue
  unfolding filter_issues
  filters_issues key i [] = []
  filters_issues key i (f ∷ fs) = filter_issues key i f ++ filters_issues key (i + 1) fs

  unfoldable pub country_issues : String → ℕ → List String → List Issue
  unfolding is_country
  country_issues key i [] = []
  country_issues key i (c ∷ cs) =
      require (is_country c) key (indexed "spec.geo_countries" i) ++ country_issues key (i + 1) cs

  -- `RuleSpecIssues`
  unfoldable pub rule_spec_issues : Rule → String → List Issue
  unfolding address_issues filters_issues country_issues
  rule_spec_issues rule key =
      if has rule.kind ("ip_whitelist" ∷ "ip_blacklist" ∷ [])
      then require (is_any rule.spec.ips) key (named "spec.ips")
        ++ address_issues key "spec.ips" 0 rule.spec.ips
      else if str_eq rule.kind "request_filter"
      then require (is_any rule.spec.filters) key (named "spec.filters")
        ++ filters_issues key 0 rule.spec.filters
      else if str_eq rule.kind "service_secret"
      then require (not (str_eq rule.spec.header "")) key (named "spec.header")
        ++ (require (has rule.spec.algo ("" ∷ "hmac-sha256" ∷ [])) key (named "spec.algo")
            ++ (require (is_positive rule.spec.ttl_seconds) key (named "spec.ttl_s")
                ++ require (not (str_eq rule.secret "")) key (named "secret")))
      else if str_eq rule.kind "rate_limit"
      then require (is_positive rule.spec.requests) key (named "spec.requests")
        ++ (require (is_positive rule.spec.window_seconds) key (named "spec.window_s")
            ++ require (has rule.spec.rate_key ("" ∷ "ip" ∷ "ip_path" ∷ [])) key
                (named "spec.rate_key"))
      else if str_eq rule.kind "geo_block"
      then require (has rule.spec.geo_mode ("block" ∷ "allow" ∷ [])) key (named "spec.geo_mode")
        ++ (require (is_any rule.spec.geo_countries) key (named "spec.geo_countries")
            ++ country_issues key 0 rule.spec.geo_countries)
      else if str_eq rule.kind "jwt_bearer"
      then require (not (str_eq rule.spec.jwks_url "")) key (named "spec.jwks_url")
        ++ require (not (is_negative rule.spec.skew_seconds)) key (named "spec.skew_s")
      else issue key (named "type")

  -- The domains of a rule for which there is no route.
  unfoldable pub apply_to_issues : String → List String → ℕ → List String → List Issue
  apply_to_issues key domains i [] = []
  apply_to_issues key domains i (d ∷ ds) =
      require (has d domains) key (indexed "apply_to" i) ++ apply_to_issues key domains (i + 1) ds

  -- `!rule.Enabled || len(rule.ApplyTo) == 0` is skipped.
  abbrev pub is_live : Rule → Bool
  is_live rule = rule.enabled && is_any rule.apply_to

  unfoldable pub rule_issues : List String → List String → Rule → List Issue
  unfolding apply_to_issues rule_spec_issues
  rule_issues seen domains rule =
      let key = str_append "rule:" rule.id in
      require (not (str_eq rule.id "") && not (has rule.id seen)) key (named "id")
      ++ (apply_to_issues key domains 0 rule.apply_to ++ rule_spec_issues rule key)

  -- `validateRules`, with the IDs seen so far.
  unfoldable pub rules_issues : List String → List String → List Rule → List Issue
  unfolding rule_issues
  rules_issues seen domains [] = []
  rules_issues seen domains (rule ∷ rules) =
      let skipped = rules_issues seen domains rules in
      let later = rules_issues (rule.id ∷ seen) domains rules in
      if is_live rule then rule_issues seen domains rule ++ later else skipped

  abbrev pub domains_of : List Route → List String
  domains_of [] = []
  domains_of (r ∷ rs) = r.domain ∷ domains_of rs

  -- `Validate`
  unfoldable pub validate : List Route → List Rule → List Issue
  unfolding routes_issues rules_issues
  validate routes rules = routes_issues [] routes ++ rules_issues [] (domains_of routes) rules
