-- ===== src/Agent/Verify/Calls.antt =====
-- What the endpoint calls of Go's library and of the packages for tokens and for GeoIP databases.
use edge_caddy.Prelude.{ℕ, Bool, String, str_append, Option, List, ◌≡◌}
use edge_caddy.Prelude.Int.{ℤ}

-- A key of a JWKS document, as it is decoded.
pub record Jwk : Type 0 where
  pub kty : String
  pub kid : String
  pub crv : String
  pub n : String
  pub e : String
  pub x : String
  pub y : String

-- The bytes of the numbers are kept as they are decoded.
pub data PublicKey : Type 0 where
  rsa_key : String → String → PublicKey
  ecdsa_key : String → String → String → PublicKey

-- The options of `jwt.Parse`: the leeway in seconds, and what the token must have; `none` for a claim
-- that is not asked for.
pub record ParserOptions : Type 0 where
  pub leeway : ℤ
  pub needs_expiration : Bool
  pub issuer : Option String
  pub audience : Option String

pub record Calls : Type 1 where
  -- `strings.Split(s, ",")`
  pub split_comma : String → List String
  pub trim_space : String → String
  -- `strings.Cut(s, "=")`
  pub cut_equals : String → Option (String × String)
  -- `strings.TrimPrefix(s, "/verify/")`
  pub trim_verify : String → String
  pub trim_verify-prefix : (s : String) → trim_verify (str_append "/verify/" s) ≡ s
  -- `strings.HasPrefix`
  pub has_prefix : String → String → Bool
  -- `strconv.ParseInt`
  pub parse_int : String → Option ℤ
  -- the HMAC-SHA256 of a message under a secret, in hex
  pub hmac_hex : String → String → String
  -- `len(s)`, `s[:n]`, `s[n:]` and `strings.EqualFold`
  pub byte_len : String → ℕ
  pub first_bytes : ℕ → String → String
  pub after_bytes : ℕ → String → String
  pub equal_fold : String → String → Bool
  -- the `kid` of a token that is well formed, "" if it has none
  pub token_kid : String → Option String
  -- `jwt.Parse` with a key, at a time: the subject of a token whose signature is right and whose claims
  -- pass under the options; the inner `none` is a token without a subject
  pub check_token : ParserOptions → PublicKey → ℕ → String → Option (Option String)
  -- a JWKS document, as it is fetched at a time
  pub fetch : ℕ → String → Option (List Jwk)
  -- `base64.RawURLEncoding.DecodeString`
  pub decode_base64 : String → Option String
  -- `net.SplitHostPort`, the host; and the part before the first `?`
  pub host_of : String → Option String
  pub before_query : String → String
  -- `netip.ParseAddr`, and the country of an address in a GeoIP database
  pub Address : Type 0
  pub Reader : Type 0
  pub parse_address : String → Option Address
  pub country_of : Reader → Address → Option String
