-- ===== src/Agent/Verify/Secret.antt =====
-- internal/agent/verify.go: the signatures with a shared secret, and the cache of those used.
use edge_caddy.Prelude.{
  ℕ, suc, ◌+◌, ◌*◌, Bool, true, false, not, ◌&&◌, ◌||◌, String, str_append, str_eq, Option, none,
  some, List, [], ◌∷◌, ltb, if◌then◌else◌,
}
use edge_caddy.Prelude.Int.{ℤ, pos, negsuc}
use edge_caddy.Prelude.Assoc.{Assoc, lookup, insert}
use edge_caddy.Agent.RateLimit.{second}
use edge_caddy.Agent.Verify.{AgentRule}
use edge_caddy.Agent.Verify.Calls.{Calls}

-- `admit` of `replayCache`: a signature is refused until the time it is kept for has passed.
unfoldable pub admit : ℕ → String → ℕ → Assoc ℕ → Assoc ℕ × Bool
admit now key ttl seen = elim (lookup key seen) [
  | none ↦ (insert key (now + ttl) seen, true)
  | some dies ↦ if ltb dies now then (insert key (now + ttl) seen, true) else (seen, false)
]

-- `sweep` of `replayCache`
unfoldable pub sweep_seen : ℕ → Assoc ℕ → Assoc ℕ
sweep_seen now [] = []
sweep_seen now ((key, dies) ∷ seen) =
    let rest = sweep_seen now seen in if ltb dies now then rest else (key, dies) ∷ rest

-- What a request to the endpoint carries. Its own method stands in for one that is not forwarded.
pub record Request : Type 0 where
  pub path : String
  pub method : String
  pub get_header : String → String

-- The parts of the signature's header that were found, "" for none.
pub record Parts : Type 0 where
  pub ts : String
  pub sig : String

abbrev pub add_part : Option (String × String) → Parts → Parts
add_part none p = p
add_part (some (k, v)) p =
    if str_eq k "t" then record p { ts = v } else if str_eq k "v1" then record p { sig = v } else p

-- The time is further from now than allowed, before or after.
unfoldable pub outside_window : ℕ → ℕ → ℤ → Bool
outside_window now ttl (pos sec) = ltb (sec * second + ttl) now || ltb (now + ttl) (sec * second)
outside_window now ttl (negsuc sec) = ltb ttl (now + suc sec * second)

module _ (calls : Calls) where
  unfoldable pub parts_loop : Parts → List String → Parts
  parts_loop p [] = p
  parts_loop p (s ∷ ss) = parts_loop (add_part (calls.cut_equals (calls.trim_space s)) p) ss

  unfoldable pub header_parts : String → Parts
  unfolding parts_loop
  header_parts raw = parts_loop (record { ts = ""; sig = "" }) (calls.split_comma raw)

  abbrev pub method_of : Request → String
  method_of r =
      let forwarded = r.get_header "X-Forwarded-Method" in
      if str_eq forwarded "" then r.method else forwarded

  -- `<t>.<method>.<uri>`
  abbrev pub message : String → Request → String
  message ts r =
      str_append ts (
        str_append "." (str_append (method_of r) (str_append "." (r.get_header "X-Forwarded-Uri"))))

  abbrev pub in_window : ℕ → ℕ → Option ℤ → Bool
  in_window now ttl none = false
  in_window now ttl (some sec) = not (outside_window now ttl sec)

  -- The checks of `verifyServiceSecret` before the cache.
  unfoldable pub is_signed : ℕ → AgentRule → Request → Bool
  unfolding header_parts
  is_signed now rule r =
      let raw = r.get_header rule.header in
      let p = header_parts raw in
      not (str_eq raw "")
      && (not (str_eq p.ts "" || str_eq p.sig "")
          && (in_window now rule.ttl (calls.parse_int p.ts)
              && str_eq (calls.hmac_hex rule.secret (message p.ts r)) p.sig))

  -- The key of a signature in the cache.
  abbrev pub seen_key : AgentRule → Request → String
  seen_key rule r =
      str_append rule.id (str_append ":" (header_parts (r.get_header rule.header)).sig)

  -- `verifyServiceSecret`
  unfoldable pub verify_service_secret : ℕ → AgentRule → Request → Assoc ℕ → Assoc ℕ × Bool
  unfolding is_signed admit
  verify_service_secret now rule r seen =
      if is_signed now rule r
      then if rule.replay then admit now (seen_key rule r) rule.ttl seen else (seen, true)
      else (seen, false)
