-- ===== src/Agent/Verify/Cache.antt =====
-- The cache of the signatures that were used.
use edge_caddy.Prelude.{
  ℕ, ◌+◌, ◌≤◌, Bool, true, false, String, str_eq, eq_refl, ltb, ltb→lt, Option, none, some, [], ◌∷◌,
  ◌≡◌, ◌⊎◌, refl, sym, ap, subst, ◌∙◌, if◌then◌else◌, Bool-cases, inl, inr, arith,
}
use edge_caddy.Prelude.Assoc.{Assoc, lookup, insert, lookup-insert, lookup_same}
use edge_caddy.Agent.Verify.Secret.{admit, sweep_seen}

-- The cache keeps a signature for some time yet, at least.
abbrev pub Keeps : String → ℕ → Assoc ℕ → Type 0
Keeps key until seen = (dies : ℕ) × ((lookup key seen ≡ some dies) × (until ≤ dies))

module _ (now : ℕ) (key : String) (ttl : ℕ) (seen : Assoc ℕ) where
  abbrev admit_found : Option ℕ → Assoc ℕ × Bool
  admit_found none = (insert key (now + ttl) seen, true)
  admit_found (some dies) =
      if ltb dies now then (insert key (now + ttl) seen, true) else (seen, false)

  admit_lem : admit now key ttl seen ≡ admit_found (lookup key seen)
  unfolding admit
  admit_lem = same (lookup key seen)
    where
      same :
          (o : Option ℕ)
          → elim o [
            | none ↦ (insert key (now + ttl) seen, true)
            | some dies ↦
                if ltb dies now then (insert key (now + ttl) seen, true) else (seen, false)
          ]
            ≡ admit_found o
      same none = refl
      same (some dies) = refl

  -- A signature that is kept is refused.
  pub admit-kept :
      (dies : ℕ)
      → lookup key seen ≡ some dies
      → ltb dies now ≡ false
      → admit now key ttl seen ≡ (seen, false)
  admit-kept dies found kept = admit_lem ∙ rw (found, kept) refl

  admit-writes :
      ((admit now key ttl seen).0 ≡ seen)
      ⊎ ((admit now key ttl seen).0 ≡ insert key (now + ttl) seen)
  admit-writes = rw admit_lem (writes (lookup key seen))
    where
      writes :
          (o : Option ℕ)
          → ((admit_found o).0 ≡ seen) ⊎ ((admit_found o).0 ≡ insert key (now + ttl) seen)
      writes none = inr refl
      writes (some dies) = elim (Bool-cases (ltb dies now)) [
        | inl expired ↦ rw expired (inr refl)
        | inr kept ↦ rw kept (inl refl)
      ]

  -- One that is let through is kept from then on.
  pub admit-new :
      (admit now key ttl seen).1 ≡ true → lookup key (admit now key ttl seen).0 ≡ some (now + ttl)
  admit-new = rw admit_lem (new (lookup key seen))
    where
      written : lookup key (insert key (now + ttl) seen) ≡ some (now + ttl)
      written = rw (lookup-insert key key (now + ttl) seen, eq_refl key) refl

      new :
          (o : Option ℕ)
          → (admit_found o).1 ≡ true
          → lookup key (admit_found o).0 ≡ some (now + ttl)
      new none ok = written
      new (some dies) ok = elim (Bool-cases (ltb dies now)) [
        | inl expired ↦ rw expired written
        | inr kept ↦ cc
      ]

module _ (key : String) (until now : ℕ) (early : now ≤ until) where
  pub kept_entry : (dies : ℕ) → until ≤ dies → ltb dies now ≡ false
  kept_entry dies h = ground arith

  pub admit-Keeps :
      (asked : String) (ttl : ℕ) (seen : Assoc ℕ)
      → Keeps key until seen
      → Keeps key until (admit now asked ttl seen).0
  admit-Keeps asked ttl seen keeps = elim (Bool-cases (str_eq asked key)) [
    | inl same ↦
        let found = lookup_same asked key seen same ∙ keeps.1.0 in
        subst (Keeps key until)
          (sym (
            ap (λ o. o.0)
              (admit-kept now asked ttl seen keeps.0 found (kept_entry keeps.0 keeps.1.1))))
          keeps
    | inr apart ↦ elim (admit-writes now asked ttl seen) [
      | inl unchanged ↦ subst (Keeps key until) (sym unchanged) keeps
      | inr written ↦
          subst (Keeps key until) (sym written)
            (keeps.0, ((rw (lookup-insert asked key (now + ttl) seen, apart) keeps.1.0), keeps.1.1))
    ]
  ]

  pub sweep_seen-Keeps :
      (seen : Assoc ℕ) → Keeps key until seen → Keeps key until (sweep_seen now seen)
  unfolding sweep_seen lookup
  sweep_seen-Keeps [] keeps = keeps
  sweep_seen-Keeps ((k, dies) ∷ seen) keeps =
      by_tests (ltb dies now) (str_eq k key) refl refl (sweep_seen-Keeps seen) keeps
    where
      or_zero : Option ℕ → ℕ
      or_zero none = 0
      or_zero (some n) = n

      still_here : (d : ℕ) → some dies ≡ some d → until ≤ d → until ≤ dies
      still_here d found late = omega (arith, ap or_zero found, late)

      by_tests :
          (expired same : Bool)
          → ltb dies now ≡ expired
          → str_eq k key ≡ same
          → (Keeps key until seen → Keeps key until (sweep_seen now seen))
          → ((d : ℕ) × (((if same then some dies else lookup key seen) ≡ some d) × (until ≤ d)))
          → Keeps key until
              (if expired then sweep_seen now seen else (k, dies) ∷ sweep_seen now seen)
      by_tests true true old is_key rest (d, (found, late)) =
          absurd (omega (arith, ltb→lt _ _ old, still_here d found late, early))
      by_tests true false old is_key rest keeps = rest keeps
      by_tests false true old is_key rest (d, (found, late)) =
          (dies, (rw is_key refl, still_here d found late))
      by_tests false false old is_key rest keeps =
          let kept = rest keeps in (kept.0, (rw is_key kept.1.0, kept.1.1))
