-- ===== src/Api/LoginRate/Fails.antt =====
-- The failures of a key that the limiter remembers, through each of its operations.
use edge_caddy.Prelude.{
  ℕ, ◌+◌, ◌≤◌, ◌<◌, false, String, List, [], ◌∷◌, ◌++◌, ◌≡◌, refl, ap, ◌∙◌, inl, inr, str_eq,
  eq_refl, leb, if◌then◌else◌, Bool-cases, arith, length,
}
use edge_caddy.Prelude.Assoc.{
  Assoc, lookup, insert, delete, lookup-insert, lookup-delete, lookup_same,
}
use edge_caddy.Api.LoginRate.{times, after_cutoff, store_recent, recent, blocked_keys, fail_keys}

-- The times that are not before a given one.
abbrev pub count_from : ℕ → List ℕ → ℕ
count_from start [] = 0
count_from start (t ∷ ts) = if leb start t then count_from start ts + 1 else count_from start ts

-- The failures of a key that are not before a given time.
abbrev pub fails_from : ℕ → String → Assoc (List ℕ) → ℕ
fails_from start k fails = count_from start (times (lookup k fails))

count_from-length : (start : ℕ) (ts : List ℕ) → count_from start ts ≤ length ts
count_from-length start [] = omega arith
count_from-length start (t ∷ ts) = ground (arith, count_from-length start ts)

count_from-after_cutoff :
    (start cutoff : ℕ) (ts : List ℕ)
    → cutoff < start
    → count_from start (after_cutoff cutoff ts) ≡ count_from start ts
unfolding after_cutoff
count_from-after_cutoff start cutoff [] h = refl
count_from-after_cutoff start cutoff (t ∷ ts) h =
    ground (arith, count_from-after_cutoff start cutoff ts h)

count_from-append :
    (start now : ℕ) (ts : List ℕ)
    → start ≤ now
    → count_from start (ts ++ now ∷ []) ≡ count_from start ts + 1
count_from-append start now [] h = ground arith
count_from-append start now (t ∷ ts) h = ground (arith, count_from-append start now ts h)

times-store_recent :
    (k j : String) (kept : List ℕ) (fails : Assoc (List ℕ))
    → times (lookup j (store_recent k kept fails))
      ≡ (if str_eq k j then kept else times (lookup j fails))
unfolding store_recent
times-store_recent k j [] fails = elim (Bool-cases (str_eq k j)) [
  | inl same ↦ rw (lookup-delete k j fails, same) refl
  | inr apart ↦ rw (lookup-delete k j fails, apart) refl
]
times-store_recent k j (t ∷ ts) fails = elim (Bool-cases (str_eq k j)) [
  | inl same ↦ rw (lookup-insert k j (t ∷ ts) fails, same) refl
  | inr apart ↦ rw (lookup-insert k j (t ∷ ts) fails, apart) refl
]

-- Forgetting what is before the cutoff forgets no failure after it, of any key.
fails_from-recent :
    (start cutoff : ℕ) (k j : String) (fails : Assoc (List ℕ))
    → cutoff < start
    → fails_from start j (recent k cutoff fails).0 ≡ fails_from start j fails
unfolding recent
fails_from-recent start cutoff k j fails h =
    rw (times-store_recent k j (after_cutoff cutoff (times (lookup k fails))) fails)
      (elim (Bool-cases (str_eq k j)) [
        | inl same ↦ rw same (
            count_from-after_cutoff start cutoff (times (lookup k fails)) h
            ∙ ap (λ o. count_from start (times o)) (lookup_same k j fails same))
        | inr apart ↦ rw apart refl
      ])

pub fails_from-blocked_keys :
    (start max_n cutoff : ℕ) (ks : List String) (j : String) (fails : Assoc (List ℕ))
    → cutoff < start
    → fails_from start j (blocked_keys max_n cutoff ks fails).0 ≡ fails_from start j fails
unfolding blocked_keys
fails_from-blocked_keys start max_n cutoff [] j fails h = refl
fails_from-blocked_keys start max_n cutoff (k ∷ ks) j fails h =
    elim (Bool-cases (leb max_n (length (recent k cutoff fails).1))) [
      | inl over ↦ rw over (fails_from-recent start cutoff k j fails h)
      | inr under ↦ rw under (
          fails_from-blocked_keys start max_n cutoff ks j (recent k cutoff fails).0 h
          ∙ fails_from-recent start cutoff k j fails h)
    ]

-- A first key that is not blocked has few failures.
pub few-blocked_keys :
    (start max_n cutoff : ℕ) (k : String) (ks : List String) (fails : Assoc (List ℕ))
    → cutoff < start
    → (blocked_keys max_n cutoff (k ∷ ks) fails).1 ≡ false
    → fails_from start k fails < max_n
unfolding blocked_keys
few-blocked_keys start max_n cutoff k ks fails h free =
    elim (Bool-cases (leb max_n (length (recent k cutoff fails).1))) [
      | inl over ↦ cc (rw over at free)
      | inr under ↦ few under
    ]
  where
    few : leb max_n (length (recent k cutoff fails).1) ≡ false → fails_from start k fails < max_n
    few under =
        let kept = after_cutoff cutoff (times (lookup k fails)) in
        let shown : leb max_n (length kept) ≡ false = unfold recent in under in
        ground (
          arith,
          count_from-length start kept,
          count_from-after_cutoff start cutoff (times (lookup k fails)) h,
          shown,
        )

fails_from-insert :
    (start now : ℕ) (k j : String) (ts : List ℕ) (fails : Assoc (List ℕ))
    → fails_from start j (insert k ts fails)
      ≡ (if str_eq k j then count_from start ts else fails_from start j fails)
fails_from-insert start now k j ts fails = elim (Bool-cases (str_eq k j)) [
  | inl same ↦ rw (lookup-insert k j ts fails, same) refl
  | inr apart ↦ rw (lookup-insert k j ts fails, apart) refl
]

fails_from-fail_step :
    (start now cutoff : ℕ) (k j : String) (fails : Assoc (List ℕ))
    → cutoff < start
    → start ≤ now
    → fails_from start j
        (insert k ((recent k cutoff fails).1 ++ now ∷ []) (recent k cutoff fails).0)
      ≡ (if str_eq k j then fails_from start j fails + 1 else fails_from start j fails)
fails_from-fail_step start now cutoff k j fails h late =
    fails_from-insert start now k j ((recent k cutoff fails).1 ++ now ∷ [])
      (recent k cutoff fails).0
    ∙ (elim (Bool-cases (str_eq k j)) [
      | inl same ↦ rw same (
          count_from-append start now (recent k cutoff fails).1 late
          ∙ ap (λ n. n + 1)
              (kept_same ∙ ap (λ o. count_from start (times o)) (lookup_same k j fails same)))
      | inr apart ↦ rw apart (fails_from-recent start cutoff k j fails h)
    ])
  where
    kept_same : count_from start (recent k cutoff fails).1 ≡ fails_from start k fails
    kept_same = unfold recent in count_from-after_cutoff start cutoff (times (lookup k fails)) h

pub fails_from-fail_keys :
    (start now cutoff : ℕ) (ip user : String) (fails : Assoc (List ℕ))
    → cutoff < start
    → start ≤ now
    → str_eq user ip ≡ false
    → fails_from start ip (fail_keys now cutoff (ip ∷ user ∷ []) fails)
      ≡ fails_from start ip fails + 1
unfolding fail_keys
fails_from-fail_keys start now cutoff ip user fails h late apart =
    fails_from-fail_step start now cutoff user ip _ h late
    ∙ rw apart (fails_from-fail_step start now cutoff ip ip fails h late ∙ rw (eq_refl ip) refl)

pub fails_from-delete :
    (start : ℕ) (ip user : String) (fails : Assoc (List ℕ))
    → str_eq user ip ≡ false
    → fails_from start ip (delete user fails) ≡ fails_from start ip fails
fails_from-delete start ip user fails apart = rw (lookup-delete user ip fails, apart) refl
