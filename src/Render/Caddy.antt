-- ===== src/Render/Caddy.antt =====
-- The part of Caddy's configuration that the renderer writes, and what it relies on of Caddy. In the
-- source a route is a `map[string]any` that is encoded to JSON.
use edge_caddy.Prelude.Int.{ℤ}
use edge_caddy.Prelude.{
  ℕ, Bool, true, false, not, ◌&&◌, ◌||◌, String, Option, List, [], ◌∷◌, ◌++◌, ◌≡◌,
}

-- One entry of a matcher set. `not_remote_ip` is a `not` of one set with one `remote_ip`.
pub data Condition : Type 0 where
  host : List String → Condition
  remote_ip : List String → Condition
  not_remote_ip : List String → Condition
  path : List String → Condition
  path_regexp : String → Condition
  header_regexp : String → String → Condition
  query : String → List String → Condition

pub record ClientCert : Type 0 where
  pub cert_file : String
  pub key_file : String

-- `max-age` of Strict-Transport-Security, which is sent with `includeSubDomains`, and the headers
-- that are taken off.
pub record HeaderOps : Type 0 where
  pub strict_transport : Option ℤ
  pub deletes : List String

pub data Handler : Type 0 where
  -- `static_response` with `abort`
  abort : Handler
  -- `static_response` with a status
  status_response : ℕ → Handler
  -- `reverse_proxy` to the verification endpoint: its address, and the path
  forward_auth : String → String → Handler
  -- `request_body`
  request_body : ℕ → Handler
  encode_gzip : Handler
  reverse_proxy : String → Option ClientCert → Handler
  response_headers : HeaderOps → Handler

pub record CaddyRoute : Type 0 where
  pub match_sets : List (List Condition)
  pub handle : List Handler
  pub terminal : Bool

module _ {Request : Type 0} (holds : Condition → Request → Bool) where
  abbrev pub all_hold : List Condition → Request → Bool
  all_hold [] q = true
  all_hold (c ∷ cs) q = holds c q && all_hold cs q

  abbrev pub any_set : List (List Condition) → Request → Bool
  any_set [] q = false
  any_set (cs ∷ sets) q = all_hold cs q || any_set sets q

  -- The matcher sets of a route are alternatives, the entries of one are all required, and a route
  -- without a set matches.
  abbrev pub matched : List (List Condition) → Request → Bool
  matched [] q = true
  matched (cs ∷ sets) q = any_set (cs ∷ sets) q

-- Caddy as documented: `serve` gives the handlers that a request runs through, in order.
pub record Caddy : Type 1 where
  pub Request : Type 0
  pub holds : Condition → Request → Bool
  pub serve : List CaddyRoute → Request → List Handler
  pub host_matches : String → Request → Bool
  pub in_ranges : List String → Request → Bool
  pub holds-host : (d : String) (q : Request) → holds (host (d ∷ [])) q ≡ host_matches d q
  pub holds-remote_ip : (rs : List String) (q : Request) → holds (remote_ip rs) q ≡ in_ranges rs q
  pub holds-not_remote_ip :
      (rs : List String) (q : Request) → holds (not_remote_ip rs) q ≡ not (in_ranges rs q)
  -- a route that does not match is passed over
  pub serve-unmatched :
      (r : CaddyRoute) (rs : List CaddyRoute) (q : Request)
      → matched holds r.match_sets q ≡ false
      → serve (r ∷ rs) q ≡ serve rs q
  -- a route that matches and is terminal is the last one
  pub serve-terminal :
      (r : CaddyRoute) (rs : List CaddyRoute) (q : Request)
      → matched holds r.match_sets q ≡ true
      → r.terminal ≡ true
      → serve (r ∷ rs) q ≡ r.handle
  -- one that matches and is not terminal runs before those that follow
  pub serve-passing :
      (r : CaddyRoute) (rs : List CaddyRoute) (q : Request)
      → matched holds r.match_sets q ≡ true
      → r.terminal ≡ false
      → serve (r ∷ rs) q ≡ r.handle ++ serve rs q
