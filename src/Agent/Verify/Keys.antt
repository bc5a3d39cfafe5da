-- ===== src/Agent/Verify/Keys.antt =====
-- The keys that the endpoint checks tokens with.
use edge_caddy.Prelude.{
  ℕ, ◌+◌, ◌≤◌, Bool, true, false, String, Option, none, some, List, [], ◌∷◌, ◌≡◌, refl, sym, ap,
  subst, ◌∙◌, if◌then◌else◌, arith,
}
use edge_caddy.Prelude.Assoc.{Assoc}
use edge_caddy.Agent.Verify.Calls.{Jwk, PublicKey, Calls}
use edge_caddy.Agent.Verify.Jwks.{
  KeyCache, jwks_ttl, unless_empty, keys_loop, refresh, is_stale, choose_in, key_for,
}

module _ (calls : Calls) where
  -- The keys are at most ten minutes old, and have the one for a `kid`.
  abbrev pub IsFreshKey : ℕ → String → KeyCache → PublicKey → Type 0
  IsFreshKey now kid c key = (now ≤ c.fetched_at + jwks_ttl) × (choose_in calls kid c ≡ some key)

  refresh-fetched_at :
      (now : ℕ) (url : String) (c : KeyCache) → refresh calls now url ≡ some c → c.fetched_at ≡ now
  unfolding refresh
  refresh-fetched_at now url c made = of_document (calls.fetch now url) made
    where
      time_or : Option KeyCache → ℕ
      time_or none = now
      time_or (some x) = x.fetched_at

      of_keys : (keys : Assoc PublicKey) → time_or (unless_empty calls now keys) ≡ now
      of_keys [] = refl
      of_keys (_ ∷ _) = refl

      of_document :
          (o : Option (List Jwk))
          → (elim o [
            | none ↦ none
            | some document ↦ unless_empty calls now (keys_loop calls [] document)
          ])
            ≡ some c
          → c.fetched_at ≡ now
      of_document none h = cc
      of_document (some document) h = sym (ap time_or h) ∙ of_keys (keys_loop calls [] document)

  not_stale :
      (now fetched_at : ℕ) (keys : Option (Assoc PublicKey))
      → is_stale calls now (record { keys = keys; fetched_at = fetched_at }) ≡ false
      → now ≤ fetched_at + jwks_ttl
  not_stale now fetched_at none h = cc
  not_stale now fetched_at (some keys) h = ground arith

  module _ (now : ℕ) (url kid : String) (c : KeyCache) where
    abbrev outcome : Bool → Option KeyCache → KeyCache × Option PublicKey
    outcome true none = (c, none)
    outcome true (some fresh) = (fresh, choose_in calls kid fresh)
    outcome false o = (c, choose_in calls kid c)

    key_for_lem :
        key_for calls now url kid c ≡ outcome (is_stale calls now c) (refresh calls now url)
    unfolding key_for
    key_for_lem = same (is_stale calls now c) (refresh calls now url)
      where
        same :
            (b : Bool) (o : Option KeyCache)
            → (if b
                then elim o [ none ↦ (c, none) | some fresh ↦ (fresh, choose_in calls kid fresh) ]
                else (c, choose_in calls kid c))
              ≡ outcome b o
        same true none = refl
        same true (some fresh) = refl
        same false o = refl

    pub key_for-IsFreshKey :
        (key : PublicKey)
        → (key_for calls now url kid c).1 ≡ some key
        → IsFreshKey now kid (key_for calls now url kid c).0 key
    key_for-IsFreshKey key got =
        subst (λ o. IsFreshKey now kid o.0 key) (sym key_for_lem)
          (chosen (is_stale calls now c) (refresh calls now url) refl refl
            (sym (ap (λ o. o.1) key_for_lem) ∙ got))
      where
        chosen :
            (b : Bool) (o : Option KeyCache)
            → is_stale calls now c ≡ b
            → refresh calls now url ≡ o
            → (outcome b o).1 ≡ some key
            → IsFreshKey now kid (outcome b o).0 key
        chosen true none stale made h = cc
        chosen true (some fresh) stale made h =
            (omega (arith, refresh-fetched_at now url fresh made), h)
        chosen false o fresh made h = (not_stale now c.fetched_at c.keys fresh, h)
