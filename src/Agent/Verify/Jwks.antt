-- ===== src/Agent/Verify/Jwks.antt =====
-- internal/agent/verify_jwt.go: the bearer tokens, and the keys that they are checked with.
use edge_caddy.Prelude.{
  ℕ, ◌+◌, ◌*◌, Bool, true, not, ◌||◌, leb, String, str_eq, Option, none, some, List, [], ◌∷◌, ltb,
  if◌then◌else◌, has,
}
use edge_caddy.Prelude.Assoc.{Assoc, lookup, insert}
use edge_caddy.Agent.RateLimit.{second}
use edge_caddy.Agent.Verify.{AgentRule}
use edge_caddy.Agent.Verify.Calls.{Jwk, PublicKey, rsa_key, ecdsa_key, ParserOptions, Calls}

-- `jwksTTL`
abbrev pub jwks_ttl : ℕ
jwks_ttl = 600 * second

abbrev unless_blank : String → Option String
unless_blank s = if str_eq s "" then none else some s

-- `opts` of `verifyJWT`
abbrev pub parser_options : AgentRule → ParserOptions
parser_options rule = record {
  leeway = rule.skew_seconds;
  needs_expiration = true;
  issuer = unless_blank rule.issuer;
  audience = unless_blank rule.audience;
}

-- `jwksCache`
pub record KeyCache : Type 0 where
  pub keys : Option (Assoc PublicKey)
  pub fetched_at : ℕ

abbrev pub only_key : Assoc PublicKey → Option PublicKey
only_key ((kid, key) ∷ []) = some key
only_key _ = none

-- The key for a token: the one with its `kid`, or the only one, if the token has no `kid`.
unfoldable pub choose_key : String → Assoc PublicKey → Option PublicKey
choose_key kid keys = elim (lookup kid keys) [
  | some key ↦ some key
  | none ↦ if str_eq kid "" then only_key keys else none
]

module _ (calls : Calls) where
  abbrev both : {A B : Type 0} → Option A → Option B → Option (A × B)
  both (some a) (some b) = some (a, b)
  both _ _ = none

  abbrev rsa_of : Option (String × String) → Option PublicKey
  rsa_of none = none
  rsa_of (some (n, e)) = some (rsa_key n e)

  abbrev ecdsa_of : String → Option (String × String) → Option PublicKey
  ecdsa_of crv none = none
  ecdsa_of crv (some (x, y)) =
      if has crv ("P-256" ∷ "P-384" ∷ []) then some (ecdsa_key crv x y) else none

  -- A key of the document that can be used.
  unfoldable pub public_key : Jwk → Option PublicKey
  public_key k =
      if str_eq k.kty "RSA"
      then rsa_of (both (calls.decode_base64 k.n) (calls.decode_base64 k.e))
      else if str_eq k.kty "EC"
      then ecdsa_of k.crv (both (calls.decode_base64 k.x) (calls.decode_base64 k.y))
      else none

  abbrev add_key : String → Option PublicKey → Assoc PublicKey → Assoc PublicKey
  add_key kid none keys = keys
  add_key kid (some key) keys = insert kid key keys

  unfoldable pub keys_loop : Assoc PublicKey → List Jwk → Assoc PublicKey
  unfolding public_key
  keys_loop keys [] = keys
  keys_loop keys (k ∷ ks) = keys_loop (add_key k.kid (public_key k) keys) ks

  abbrev pub unless_empty : ℕ → Assoc PublicKey → Option KeyCache
  unless_empty now [] = none
  unless_empty now (k ∷ ks) = some (record { keys = some (k ∷ ks); fetched_at = now })

  -- `refreshLocked`
  unfoldable pub refresh : ℕ → String → Option KeyCache
  unfolding keys_loop
  refresh now url = elim (calls.fetch now url) [
    | none ↦ none
    | some document ↦ unless_empty now (keys_loop [] document)
  ]

  abbrev pub is_stale : ℕ → KeyCache → Bool
  is_stale now c = elim c.keys [ none ↦ true | some keys ↦ ltb (c.fetched_at + jwks_ttl) now ]

  abbrev pub choose_in : String → KeyCache → Option PublicKey
  choose_in kid c = elim c.keys [ none ↦ none | some keys ↦ choose_key kid keys ]

  -- `key`: the cache afterwards, and the key.
  unfoldable pub key_for : ℕ → String → String → KeyCache → KeyCache × Option PublicKey
  unfolding refresh choose_key
  key_for now url kid c =
      if is_stale now c
      then elim (refresh now url) [ none ↦ (c, none) | some fresh ↦ (fresh, choose_in kid fresh) ]
      else (c, choose_in kid c)

  -- `jwksCacheFor`: a URL that is new gets an empty cache.
  abbrev pub cache_for : String → Assoc KeyCache → KeyCache
  cache_for url caches = elim (lookup url caches) [
    | none ↦ record { keys = none; fetched_at = 0 }
    | some c ↦ c
  ]

  -- A token without a subject passes, with nothing to hand on.
  abbrev pub subject : Option (Option String) → Option String
  subject none = none
  subject (some none) = some ""
  subject (some (some sub)) = some sub

  abbrev pub check_with : ℕ → AgentRule → String → Option PublicKey → Option String
  check_with now rule raw none = none
  check_with now rule raw (some key) = subject (calls.check_token (parser_options rule) key now raw)

  -- A token with its `kid`: the key is looked up, and the token checked with it.
  unfoldable pub verify_token :
      ℕ → AgentRule → String → String → Assoc KeyCache → Assoc KeyCache × Option String
  unfolding key_for
  verify_token now rule raw kid caches =
      let (c, key) = key_for now rule.jwks_url kid (cache_for rule.jwks_url caches) in
      (insert rule.jwks_url c caches, check_with now rule raw key)

  -- The token of an Authorization header, which is longer than "Bearer " and begins with it, in
  -- capitals or not.
  unfoldable pub bearer_token : String → Option String
  bearer_token authorization =
      if leb (calls.byte_len authorization) 7
        || not (calls.equal_fold (calls.first_bytes 7 authorization) "Bearer ")
      then none
      else some (calls.trim_space (calls.after_bytes 7 authorization))

  -- `verifyJWT`, on the Authorization header: the subject of a token that passes.
  unfoldable pub verify_jwt :
      ℕ → AgentRule → String → Assoc KeyCache → Assoc KeyCache × Option String
  unfolding verify_token bearer_token
  verify_jwt now rule authorization caches = elim (bearer_token authorization) [
    | none ↦ (caches, none)
    | some raw ↦ elim (calls.token_kid raw) [
      | none ↦ (caches, none)
      | some kid ↦ verify_token now rule raw kid caches
    ]
  ]
