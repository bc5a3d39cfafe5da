-- ===== src/Agent/RateLimit/Bounds.antt =====
-- How many requests a rule lets through.
use edge_caddy.Prelude.{
  ℕ, ◌+◌, ◌-◌, ◌*◌, ◌≤◌, ◌<◌, Bool, true, false, ◌||◌, ◌&&◌, String, Option, none, some, List, [],
  ◌∷◌, ◌≡◌, refl, ap, ◌∙◌, sym, str_eq, leb, leb→le, ◌==◌, if◌then◌else◌, Bool-cases, inl, inr, min,
  arith,
}
use edge_caddy.Prelude.Assoc.{Assoc, lookup, insert, lookup-insert, lookup_same}
use native.Mathlib.Nat.{add-mul, mul-le-mul_right, le_trans}
use edge_caddy.Agent.RateLimit.{Bucket, Rate, Reply, full, refill, spend, allow}

-- The tokens that a key can have spent by the time `end_time`, at most.
abbrev credit : Rate → ℕ → ℕ → Option Bucket → ℕ
credit r from end_time none = full r + (end_time - from) * r.num
credit r from end_time (some b) = b.tokens + (end_time - b.last) * r.num

abbrev cost : Rate → Reply → ℕ
cost r reply = if reply.is_allowed then r.den else 0

elapsed_parts :
    (last now end_time num : ℕ)
    → last ≤ now
    → now ≤ end_time
    → (now - last) * num + (end_time - now) * num ≡ (end_time - last) * num
elapsed_parts last now end_time num h g =
    sym (add-mul (now - last) (end_time - now) num) ∙ ap (λ d. d * num) (omega (arith, h, g))

-- The bucket was not used after a given time.
abbrev pub IsBefore : ℕ → Option Bucket → Type 0
IsBefore from none = Unit
IsBefore from (some b) = b.last ≤ from

credit-later :
    (r : Rate) (from now end_time : ℕ) (b : Option Bucket)
    → from ≤ now
    → credit r now end_time b ≤ credit r from end_time b
credit-later r from now end_time none h =
    let shorter : (end_time - now) * r.num ≤ (end_time - from) * r.num =
      mul-le-mul_right {m = end_time - now} {n = end_time - from} r.num (omega (arith, h)) in
    omega (arith, shorter)
credit-later r from now end_time (some b) h = omega arith

credit-refill :
    (r : Rate) (from now end_time : ℕ) (b : Option Bucket)
    → from ≤ now
    → now ≤ end_time
    → IsBefore from b
    → credit r now end_time (some (refill r now b)) ≤ credit r from end_time b
unfolding refill
credit-refill r from now end_time none h g last = credit-later r from now end_time none h
credit-refill r from now end_time (some b) h g last =
    omega (arith, elapsed_parts b.last now end_time r.num (omega (arith, last, h)) g)

credit-spend :
    (r : Rate) (from end_time : ℕ) (b : Bucket)
    → cost r (spend r b).1 + credit r from end_time (some (spend r b).0)
      ≤ credit r from end_time (some b)
unfolding spend
credit-spend r from end_time b = elim (Bool-cases (leb r.den b.tokens)) [
  | inl enough ↦ rw enough (omega (arith, leb→le _ _ enough))
  | inr few ↦ rw few (omega arith)
]

last-spend : (r : Rate) (now : ℕ) (b : Option Bucket) → (spend r (refill r now b)).0.last ≡ now
unfolding spend refill
last-spend r now none = elim (Bool-cases (leb r.den (full r))) [
  | inl enough ↦ rw enough refl
  | inr few ↦ rw few refl
]
last-spend r now (some b) =
    elim (Bool-cases (leb r.den (min (full r) (b.tokens + (now - b.last) * r.num)))) [
      | inl enough ↦ rw enough refl
      | inr few ↦ rw few refl
    ]

-- A request for a key at a time.
pub record Request : Type 0 where
  pub key : String
  pub at : ℕ

-- The requests come in the order of time, from one time to another.
abbrev pub InOrder : ℕ → ℕ → List Request → Type 0
InOrder from end_time [] = Unit
InOrder from end_time (q ∷ qs) = (from ≤ q.at) × (q.at ≤ end_time) × InOrder q.at end_time qs

-- How many requests for a key are let through.
unfoldable pub let_through : Rate → String → Assoc Bucket → List Request → ℕ
let_through r k buckets [] = 0
let_through r k buckets (q ∷ qs) =
    let (after, reply) = allow r q.at q.key buckets in
    let rest = let_through r k after qs in
    if str_eq q.key k && reply.is_allowed then rest + 1 else rest

IsBefore-later : (from now : ℕ) (b : Option Bucket) → from ≤ now → IsBefore from b → IsBefore now b
IsBefore-later from now none h before = tt
IsBefore-later from now (some b) h before = omega (arith, h, before)

counted :
    (allowed : Bool) (n den later total : ℕ)
    → n * den ≤ later
    → (if allowed then den else 0) + later ≤ total
    → (if allowed then n + 1 else n) * den ≤ total
counted true n den later total h g = omega (arith, h, g)
counted false n den later total h g = omega (arith, h, g)

module _ (r : Rate) (some_burst : 0 < r.burst) (some_rate : 0 < r.num) where
  allow_lem :
      (now : ℕ) (key : String) (buckets : Assoc Bucket)
      → allow r now key buckets ≡ (
        insert key (spend r (refill r now (lookup key buckets))).0 buckets,
        (spend r (refill r now (lookup key buckets))).1,
      )
  unfolding allow
  allow_lem now key buckets = rw limited refl
    where
      limited : (r.burst == 0 || r.num == 0) ≡ false
      limited = ground (arith, some_burst, some_rate)

  let_through-credit :
      (from end_time : ℕ) (k : String) (buckets : Assoc Bucket) (qs : List Request)
      → InOrder from end_time qs
      → IsBefore from (lookup k buckets)
      → let_through r k buckets qs * r.den ≤ credit r from end_time (lookup k buckets)
  unfolding let_through
  let_through-credit from end_time k buckets [] o before = omega arith
  let_through-credit from end_time k buckets (q ∷ qs) (early, late, o) before =
      rw (allow_lem q.at q.key buckets) (elim (Bool-cases (str_eq q.key k)) [
        | inl same ↦
            rw same (on_key same (λ used. let_through-credit q.at end_time k after qs o used))
        | inr apart ↦
            rw apart (on_other apart (λ used. let_through-credit q.at end_time k after qs o used))
      ])
    where
      was : Option Bucket
      was = lookup q.key buckets

      now_bucket : Bucket
      now_bucket = (spend r (refill r q.at was)).0

      reply : Reply
      reply = (spend r (refill r q.at was)).1

      after : Assoc Bucket
      after = insert q.key now_bucket buckets

      on_key :
          str_eq q.key k ≡ true
          → (IsBefore q.at (lookup k after)
              → let_through r k after qs * r.den ≤ credit r q.at end_time (lookup k after))
          → (if reply.is_allowed then let_through r k after qs + 1 else let_through r k after qs)
              * r.den
            ≤ credit r from end_time (lookup k buckets)
      on_key same rest =
          let place : lookup k after ≡ some now_bucket =
            lookup-insert q.key k now_bucket buckets ∙ rw same refl in
          let here : was ≡ lookup k buckets = lookup_same q.key k buckets same in
          let used : IsBefore q.at (lookup k after) =
            rw place (omega (arith, last-spend r q.at was)) in
          let later = rest used in
          counted reply.is_allowed (let_through r k after qs) r.den
            (credit r q.at end_time (some now_bucket)) (credit r from end_time (lookup k buckets))
            (rw place at later) (paid here)
        where
          paid :
              was ≡ lookup k buckets
              → cost r reply + credit r q.at end_time (some now_bucket)
                ≤ credit r from end_time (lookup k buckets)
          paid here = rw (← here) (
              le_trans (credit-spend r q.at end_time (refill r q.at was))
                (credit-refill r from q.at end_time was early late (rw (← here) at before)))

      on_other :
          str_eq q.key k ≡ false
          → (IsBefore q.at (lookup k after)
              → let_through r k after qs * r.den ≤ credit r q.at end_time (lookup k after))
          → let_through r k after qs * r.den ≤ credit r from end_time (lookup k buckets)
      on_other apart rest =
          let place : lookup k after ≡ lookup k buckets =
            lookup-insert q.key k now_bucket buckets ∙ rw apart refl in
          let later = rest (rw place (IsBefore-later from q.at (lookup k buckets) early before)) in
          le_trans (rw place at later) (credit-later r from q.at end_time (lookup k buckets) early)

-- Where the rule has a burst and a rate, of the requests for a key that has no bucket yet, in the order
-- of time, no more are let through than the burst and what the rate allows in the time that they take.
pub let_through-bounded :
    (r : Rate) (from end_time : ℕ) (k : String) (buckets : Assoc Bucket) (qs : List Request)
    → 0 < r.burst
    → 0 < r.num
    → InOrder from end_time qs
    → lookup k buckets ≡ none
    → let_through r k buckets qs * r.den ≤ r.burst * r.den + (end_time - from) * r.num
let_through-bounded r from end_time k buckets qs some_burst some_rate o new =
    rw new at (let_through-credit r some_burst some_rate from end_time k buckets qs o (rw new tt))
