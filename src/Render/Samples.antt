-- ===== src/Render/Samples.antt =====
-- The renderer on concrete resources.
use edge_caddy.Prelude.{
  ◌*◌, Bool, true, false, not, String, str_eq, none, some, List, [], ◌∷◌, ◌++◌, ◌≡◌, refl,
  if◌then◌else◌, has, All,
}
use edge_caddy.Prelude.Int.{pos}
use edge_caddy.Render.Go.{Go}
use edge_caddy.Render.Resources.{Cert, RuleSpec, Rule, Route}
use edge_caddy.Render.Caddy.{
  Condition, host, remote_ip, not_remote_ip, Handler, abort, status_response, forward_auth,
  request_body, encode_gzip, reverse_proxy, CaddyRoute, matched, Caddy,
}
use edge_caddy.Render.Access.{
  Options, with_defaults, block_handler, normalize_ranges, filter_condition, proxy_handlers,
  rules_of, caddy_routes,
}
use edge_caddy.Render.Access.Spec.{decide}
use edge_caddy.Render.Policy.{
  default_tls_policy, default_log_policy, Policies, validate_policies, logging_app,
}
use edge_caddy.Render.Config.{Config, edge_server, tls_server, render}
use edge_caddy.Render.Config.Switch.{with_http3, http3_ignored}
use edge_caddy.Render.Config.Serves.{treat, Serves, render-Serves}
use edge_caddy.Render.Validate.{validate, domains_of}
use edge_caddy.Render.Validate.Fresh.{IsUnique}
use edge_caddy.Render.Validate.SoundRoutes.{IsSoundRoute}
use edge_caddy.Render.Validate.SoundRules.{live, ids_of, IsSoundRule}
use edge_caddy.Render.Validate.Sound.{validate-IsSound}

-- Go's library on these resources: the texts are as they are wanted.
abbrev pub sample_go : Go
sample_go = record {
  trim_space = λ s. s;
  contains_slash = λ s. has s ("10.0.0.0/8" ∷ []);
  parse_ip = λ s. if has s ("10.0.0.1" ∷ "10.0.0.2" ∷ []) then some true else none;
  parses_cidr = λ s. str_eq s "10.0.0.0/8";
  split_host_port = λ s. if str_eq s "origin:80" then some ("origin", "80") else none;
  atoi = λ s. if str_eq s "80" then some (pos 80) else none;
  is_domain = λ s. has s ("a.example" ∷ "b.example" ∷ []);
  compiles = λ s. true;
  quote_meta = λ s. s;
  body_max_groups = λ s. if str_eq s "5MB" then some ("5", "MB") else none;
  trim_b = λ s. if str_eq s "MB" then "M" else s;
  scaled = λ s n. if str_eq s "5" then some (5 * n) else none;
  sort_certs = λ cs. cs;
  sort_routes = λ rs. rs;
  sort_rules = λ rs. rs;
  sort_rules-All = λ P rules all. all;
}

-- A request by its host and the address that it comes from.
pub record Visit : Type 0 where
  pub domain : String
  pub address : String

abbrev visit_holds : Condition → Visit → Bool
visit_holds (host ds) q = has q.domain ds
visit_holds (remote_ip rs) q = has q.address rs
visit_holds (not_remote_ip rs) q = not (has q.address rs)
visit_holds _ q = false

abbrev serve_visit : List CaddyRoute → Visit → List Handler
serve_visit [] q = []
serve_visit (r ∷ rs) q =
    let rest = serve_visit rs q in
    if matched visit_holds r.match_sets q
    then if r.terminal then r.handle else r.handle ++ rest
    else rest

-- A Caddy that knows hosts and addresses.
abbrev sample_caddy : Caddy
sample_caddy = record {
  Request = Visit;
  holds = visit_holds;
  serve = serve_visit;
  host_matches = λ d q. has q.domain (d ∷ []);
  in_ranges = λ rs q. has q.address rs;
  holds-host = λ d q. refl;
  holds-remote_ip = λ rs q. refl;
  holds-not_remote_ip = λ rs q. refl;
  serve-unmatched = unmatched;
  serve-terminal = terminal;
  serve-passing = passing;
}
  where
    choose : Bool → Bool → List Handler → List Handler → List Handler
    choose m t now rest = if m then if t then now else now ++ rest else rest

    unmatched :
        (r : CaddyRoute) (rs : List CaddyRoute) (q : Visit)
        → matched visit_holds r.match_sets q ≡ false
        → serve_visit (r ∷ rs) q ≡ serve_visit rs q
    unmatched r rs q miss = rw miss refl

    terminal :
        (r : CaddyRoute) (rs : List CaddyRoute) (q : Visit)
        → matched visit_holds r.match_sets q ≡ true
        → r.terminal ≡ true
        → serve_visit (r ∷ rs) q ≡ r.handle
    terminal r rs q hit last = rw hit (simp last refl)

    passing :
        (r : CaddyRoute) (rs : List CaddyRoute) (q : Visit)
        → matched visit_holds r.match_sets q ≡ true
        → r.terminal ≡ false
        → serve_visit (r ∷ rs) q ≡ r.handle ++ serve_visit rs q
    passing r rs q hit more = rw hit (simp more refl)

abbrev route_a : Route
route_a = record {
  domain = "a.example";
  upstream = "origin:80";
  block_mode = "403";
  mtls = false;
  compress = true;
  body_max = "5MB";
  whitelist = "10.0.0.1" ∷ "10.0.0.2" ∷ [];
}

abbrev pub route_b : Route
route_b = record route_a { domain = "b.example"; whitelist = []; compress = false }

abbrev no_spec : RuleSpec
no_spec = record {
  ips = [];
  header = "";
  algo = "";
  ttl_seconds = pos 0;
  replay_protection = false;
  issuer = "";
  audience = "";
  jwks_url = "";
  skew_seconds = pos 0;
  filters = [];
  requests = pos 0;
  window_seconds = pos 0;
  rate_key = "";
  geo_mode = "";
  geo_countries = [];
}

abbrev blacklist : Rule
blacklist = record {
  id = "block";
  kind = "ip_blacklist";
  enabled = true;
  apply_to = "a.example" ∷ [];
  spec = record no_spec { ips = "10.0.0.2" ∷ [] };
  secret = "";
}

abbrev pub signed_rule : Rule
signed_rule = record blacklist {
  id = "signed";
  kind = "service_secret";
  apply_to = "a.example" ∷ "b.example" ∷ [];
  spec = record no_spec { header = "X-Signature"; ttl_seconds = pos 60; replay_protection = true };
  secret = "key";
}

abbrev filters : Rule
filters = record blacklist {
  id = "agents";
  kind = "request_filter";
  spec = record no_spec {
    filters = record { field = "user_agent"; name = ""; op = "contains"; value = "bot" } ∷ [];
  };
}

abbrev pub sample_routes : List Route
sample_routes = route_a ∷ route_b ∷ []

abbrev pub sample_rules : List Rule
sample_rules = blacklist ∷ signed_rule ∷ filters ∷ []

abbrev pub sample_options : Options
sample_options = record {
  http_listen = "";
  https_listen = "";
  upstream_client_cert = "/cert";
  upstream_client_key = "/key";
  verify_addr = "";
  log_dir = "";
}

abbrev sample_policies : Policies
sample_policies = record { tls = default_tls_policy; log = default_log_policy }

abbrev sample_certs : List Cert
sample_certs = record { domain = "a.example"; cert_pem = "cert"; key_pem = "key" } ∷ []

abbrev sample_config : Config
sample_config =
    let all = caddy_routes sample_go sample_options sample_routes sample_rules in
    record {
      edge = edge_server sample_go sample_options all sample_policies;
      edge_tls = tls_server sample_go sample_options sample_certs all sample_policies;
      logging = logging_app sample_policies (with_defaults sample_options).log_dir;
      load_pem = sample_certs;
    }

abbrev friend : Visit
friend = record { domain = "a.example"; address = "10.0.0.1/32" }

abbrev blocked : Visit
blocked = record { domain = "a.example"; address = "10.0.0.2/32" }

abbrev stranger : Visit
stranger = record { domain = "c.example"; address = "10.0.0.1/32" }

abbrev decided : Visit → List Handler
decided = decide sample_go sample_caddy (with_defaults sample_options) sample_rules sample_routes

decided_tests :
    (decided friend
      ≡ forward_auth "127.0.0.1:2020" "/verify/signed"
        ∷ request_body 5242880
        ∷ encode_gzip
        ∷ reverse_proxy "origin:80" none
        ∷ [])
    × ((decided blocked ≡ status_response 403 ∷ []) × (decided stranger ≡ abort ∷ []))
unfolding rules_of normalize_ranges filter_condition block_handler proxy_handlers with_defaults
decided_tests = (refl, (refl, refl))

sample_valid : validate sample_go sample_routes sample_rules ≡ []
unfolding validate
sample_valid = refl

validate-IsSound_example :
    IsUnique (domains_of sample_go sample_routes)
    × (All (IsSoundRoute sample_go) sample_routes
        × (IsUnique (ids_of sample_go (live sample_go sample_rules))
            × All
                (IsSoundRule sample_go (domains_of sample_go sample_routes))
                (live sample_go sample_rules)))
validate-IsSound_example = validate-IsSound sample_go sample_routes sample_rules sample_valid

render-Serves_example :
    Serves sample_go sample_caddy (some sample_config.edge) friend (
      treat sample_go sample_caddy sample_options sample_routes sample_rules sample_policies false
        friend)
    × Serves sample_go sample_caddy sample_config.edge_tls friend (
        treat sample_go sample_caddy sample_options sample_routes sample_rules sample_policies true
          friend)
render-Serves_example =
    render-Serves sample_go sample_caddy sample_routes sample_rules sample_certs sample_policies
      sample_options sample_config friend (unfold render validate_policies validate in refl)

http3_ignored_example :
    render sample_go sample_routes sample_rules sample_certs
      (with_http3 false sample_policies)
      sample_options
    ≡ render sample_go sample_routes sample_rules sample_certs sample_policies sample_options
http3_ignored_example =
    http3_ignored sample_go sample_routes sample_rules sample_certs sample_policies sample_options
      false
