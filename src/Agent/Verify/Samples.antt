-- ===== src/Agent/Verify/Samples.antt =====
-- The endpoint on concrete rules and requests.
use edge_caddy.Prelude.{
  ℕ, ◌*◌, true, ◌&&◌, str_append, str_eq, none, some, List, [], ◌∷◌, ◌≡◌, refl, arith, inl, ap, ◌∙◌,
  if◌then◌else◌, has, All,
}
use edge_caddy.Prelude.Int.{pos}
use edge_caddy.Prelude.Assoc.{Assoc, lookup, insert}
use Prim.Native.String.{len, slice}
use text.Mathlib.TextPositions.{slice-append_right, len-append}
use edge_caddy.Render.Access.{caddy_routes}
use edge_caddy.Render.VerifyRules.{verify_rules}
use edge_caddy.Render.Samples.{sample_go, sample_options, sample_routes, sample_rules}
use edge_caddy.Agent.RateLimit.{second, Bucket, allow}
use edge_caddy.Agent.Verify.Sweep.{rate_of, sweep_all}
use edge_caddy.Agent.Verify.Swept.{allow-sweep_all}
use edge_caddy.Agent.Verify.{AgentRule}
use edge_caddy.Agent.Verify.Calls.{Calls}
use edge_caddy.Agent.Verify.Secret.{Request, outside_window, header_parts}
use edge_caddy.Agent.Verify.Handle.{Verifier, handle, set_rules}
use edge_caddy.Agent.Verify.Counts.{CountsAs, handle-CountsAs}
use edge_caddy.Agent.Verify.Accepts.{IsSigned, accepted-IsSigned}
use edge_caddy.Agent.Verify.Tokens.{HasFreshKey, accepted-HasFreshKey}
use edge_caddy.Agent.Verify.Replay.{Event, serve, renew, tick, run, signature_once}
use edge_caddy.Agent.Verify.Answers.{IsAnswered, rendered-IsAnswered}

-- The library on the texts of the samples.
abbrev sample_calls : Calls
sample_calls = record {
  split_comma = λ s.
      if str_eq s "t=100,v1=beef"
      then "t=100" ∷ "v1=beef" ∷ []
      else if str_eq s "v1=beef,t=100"
      then "v1=beef" ∷ "t=100" ∷ []
      else s ∷ [];
  trim_space = λ s. s;
  cut_equals = λ s.
      if str_eq s "t=100"
      then some ("t", "100")
      else if str_eq s "v1=beef"
      then some ("v1", "beef")
      else none;
  trim_verify = λ s. slice s 8 (len s);
  trim_verify-prefix = λ s.
      ap (slice (str_append "/verify/" s) 8) (len-append "/verify/" s)
      ∙ slice-append_right "/verify/" s;
  has_prefix = λ s p. has s ("limit|10.0.0.1" ∷ []) && str_eq p "limit|";
  parse_int = λ s. if str_eq s "100" then some (pos 100) else none;
  hmac_hex = λ secret m. if str_eq m "100.GET./x" then "beef" else "dead";
  byte_len = len;
  first_bytes = λ n s. slice s 0 n;
  after_bytes = λ n s. slice s n (len s);
  equal_fold = str_eq;
  token_kid = λ s. if str_eq s "token" then some "k1" else none;
  check_token = λ options key now raw. if str_eq raw "token" then some (some "alice") else none;
  fetch = λ now url.
      some (record { kty = "RSA"; kid = "k1"; crv = ""; n = "n"; e = "e"; x = ""; y = "" } ∷ []);
  decode_base64 = λ s. some s;
  host_of = λ s. none;
  before_query = λ s. s;
  Address = Unit;
  Reader = Unit;
  parse_address = λ s. none;
  country_of = λ r a. none;
}

abbrev sample_verifier : Verifier Unit
sample_verifier = set_rules sample_calls (verify_rules sample_go sample_rules) (record {
  rules = [];
  seen = [];
  buckets = [];
  key_caches = [];
  geo = none;
  rate_limited = 0;
  denied = 0;
})

abbrev signed_request : Request
signed_request = record {
  path = "/verify/signed";
  method = "GET";
  get_header = λ h.
      if str_eq h "X-Signature"
      then "t=100,v1=beef"
      else if str_eq h "X-Forwarded-Uri"
      then "/x"
      else "";
}

abbrev sample_rule : AgentRule
sample_rule = record {
  id = "signed";
  kind = "service_secret";
  header = "X-Signature";
  ttl = 60 * second;
  replay = true;
  secret = "key";
  issuer = "";
  audience = "";
  jwks_url = "";
  skew_seconds = pos 0;
  requests = pos 0;
  window_seconds = pos 0;
  rate_key = "";
  geo_mode = "";
  geo_countries = [];
}

abbrev at : ℕ → ℕ
at seconds = seconds * second

sample_found :
    lookup (sample_calls.trim_verify signed_request.path) sample_verifier.rules ≡ some sample_rule
unfolding lookup insert set_rules verify_rules
sample_found = refl

sample_passes : (handle sample_calls (at 110) signed_request sample_verifier).1.status ≡ 200
unfolding handle lookup insert outside_window set_rules verify_rules
sample_passes = refl

handle-CountsAs_example :
    CountsAs true sample_verifier (handle sample_calls (at 110) signed_request sample_verifier)
handle-CountsAs_example = handle-CountsAs sample_calls (at 110) signed_request sample_verifier

accepted-IsSigned_example : IsSigned sample_calls (at 110) sample_rule signed_request
accepted-IsSigned_example =
    accepted-IsSigned sample_calls (at 110) signed_request sample_verifier sample_rule sample_found
      refl sample_passes

-- In between: another request, the same rules again, and the sweeper.
abbrev in_between : List (ℕ × Event Unit)
in_between =
    (at 111, serve (record signed_request { path = "/verify/other" }))
    ∷ (at 115, renew (verify_rules sample_go sample_rules))
    ∷ (at 120, tick)
    ∷ []

-- The same signature, with its parts in the other order.
abbrev replayed_request : Request
replayed_request = record signed_request {
  get_header = λ h. if str_eq h "X-Signature" then "v1=beef,t=100" else signed_request.get_header h;
}

signature_once_example :
    (handle sample_calls (at 130) replayed_request (
      run sample_calls in_between
        (handle sample_calls (at 110) signed_request sample_verifier).0)).1.status
    ≡ 403
signature_once_example =
    signature_once sample_calls (at 110) (at 130) signed_request replayed_request sample_verifier
      sample_rule in_between sample_found refl refl sample_passes
      (omega arith, (omega arith, (omega arith, tt)))
      (unfold run handle lookup insert outside_window set_rules verify_rules in refl)
      (unfold header_parts in refl) (unfold header_parts in refl)

rendered-IsAnswered_example :
    All
      (λ route.
        All
          (IsAnswered sample_calls
            (set_rules sample_calls (verify_rules sample_go sample_rules) sample_verifier))
          route.handle)
      (caddy_routes sample_go sample_options sample_routes sample_rules)
rendered-IsAnswered_example =
    rendered-IsAnswered sample_calls sample_go sample_options sample_routes sample_rules
      sample_verifier

abbrev token_rule : AgentRule
token_rule = record sample_rule { id = "token"; kind = "jwt_bearer"; jwks_url = "https://idp" }

abbrev token_verifier : Verifier Unit
token_verifier = record sample_verifier { rules = ("token", token_rule) ∷ [] }

abbrev token_request : Request
token_request = record {
  path = "/verify/token";
  method = "GET";
  get_header = λ h. if str_eq h "Authorization" then "Bearer token" else "";
}

accepted-HasFreshKey_example :
    HasFreshKey sample_calls
      (at 110)
      token_rule
      token_request
      (handle sample_calls (at 110) token_request token_verifier).0.key_caches
accepted-HasFreshKey_example =
    accepted-HasFreshKey sample_calls (at 110) token_request token_verifier token_rule
      (unfold lookup in refl) refl (unfold handle lookup insert set_rules in refl)

abbrev limit_rule : AgentRule
limit_rule = record sample_rule {
  id = "limit";
  kind = "rate_limit";
  requests = pos 2;
  window_seconds = pos 60;
}

abbrev some_buckets : Assoc Bucket
some_buckets = ("limit|10.0.0.1", record { tokens = 120 * second; last = at 10 }) ∷ []

allow-sweep_all_example :
    (allow
      (rate_of limit_rule)
      (at 30)
      "limit|10.0.0.1"
      (sweep_all sample_calls (limit_rule ∷ []) (at 20) some_buckets)).1
    ≡ (allow (rate_of limit_rule) (at 30) "limit|10.0.0.1" some_buckets).1
allow-sweep_all_example =
    allow-sweep_all sample_calls limit_rule "limit|10.0.0.1" (at 20) (at 30) (omega arith)
      (limit_rule ∷ []) some_buckets (inl refl, tt) refl (unfold lookup in (refl, tt))
