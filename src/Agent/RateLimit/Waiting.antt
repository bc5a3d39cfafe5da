-- ===== src/Agent/RateLimit/Waiting.antt =====
-- What a refused client is told, and what sweeping forgets.
use edge_caddy.Prelude.{
  ℕ, ◌+◌, ◌-◌, ◌*◌, ◌/◌, ◌≤◌, ◌<◌, true, false, Option, none, some, ◌≡◌, refl, leb, leb→le, le→leb,
  Bool-cases, inl, inr, min, arith,
}
use edge_caddy.Agent.RateLimit.{Bucket, Rate, second, full, refill, wait_of, spend, is_full}
use native.Mathlib.Nat.{lt-mul-div-succ, mul-le-mul_left, mul-le-mul_right, le-mul_of_pos_right}

-- The wait is longer than the time until the next token.
wait-long : (r : Rate) (b : Bucket) → 0 < r.num → r.den ≤ b.tokens + r.num * wait_of r b
unfolding wait_of
wait-long r b pos =
    let x = (r.den - b.tokens) / r.num in
    let more : r.den - b.tokens < r.num * (x + 1) = lt-mul-div-succ (r.den - b.tokens) pos in
    let rounded : x + 1 ≤ (x + second) / second * second = omega arith in
    omega
      (arith, more, mul-le-mul_left {m = x + 1} {n = (x + second) / second * second} r.num rounded)

last-refill : (r : Rate) (now : ℕ) (b : Option Bucket) → (refill r now b).last ≡ now
unfolding refill
last-refill r now none = refl
last-refill r now (some b) = refl

enough-refill :
    (r : Rate) (now : ℕ) (b : Bucket)
    → 0 < r.burst
    → 0 < r.num
    → b.last ≡ now
    → r.den ≤ (refill r (now + wait_of r b) (some b)).tokens
unfolding refill
enough-refill r now b some_burst pos at_now =
    let elapsed : now + wait_of r b - b.last ≡ wait_of r b = omega (arith, at_now) in
    let one_token : r.den ≤ r.den * r.burst = le-mul_of_pos_right r.den some_burst in
    rw elapsed (omega (arith, wait-long r b pos, one_token))

spend-refused :
    (r : Rate) (b : Bucket)
    → (spend r b).1.is_allowed ≡ false
    → spend r b ≡ (b, record { is_allowed = false; wait = wait_of r b })
unfolding spend
spend-refused r b h = elim (Bool-cases (leb r.den b.tokens)) [
  | inl enough ↦ cc (rw enough at h)
  | inr few ↦ rw few refl
]

spend-allowed : (r : Rate) (b : Bucket) → r.den ≤ b.tokens → (spend r b).1.is_allowed ≡ true
unfolding spend
spend-allowed r b h = rw (le→leb r.den b.tokens h) refl

-- With a burst and a rate above zero: a client that is refused, and waits as long as it was told
-- before it asks again, is let through, if nobody else asked for the key meanwhile.
pub allowed_after_wait :
    (r : Rate) (now : ℕ) (b : Option Bucket)
    → 0 < r.burst
    → 0 < r.num
    → (spend r (refill r now b)).1.is_allowed ≡ false
    → (spend r (
        refill r
          (now + (spend r (refill r now b)).1.wait)
          (some (spend r (refill r now b)).0))).1.is_allowed
      ≡ true
allowed_after_wait r now b some_burst pos h =
    rw (spend-refused r (refill r now b) h) (
      spend-allowed r _ (enough-refill r now (refill r now b) some_burst pos (last-refill r now b)))

-- A bucket that is swept because it would be full is, whenever a request comes later, as good as the
-- new one that the request gets.
pub swept_as_new :
    (r : Rate) (now later : ℕ) (b : Bucket)
    → is_full r now b ≡ true
    → now ≤ later
    → refill r later (some b) ≡ refill r later none
unfolding is_full refill
swept_as_new r now later b h after =
    let filled : full r ≤ b.tokens + (now - b.last) * r.num = leb→le _ _ h in
    let longer : (now - b.last) * r.num ≤ (later - b.last) * r.num =
      mul-le-mul_right {m = now - b.last} {n = later - b.last} r.num (omega (arith, after)) in
    let same : min (full r) (b.tokens + (later - b.last) * r.num) ≡ full r =
      omega (arith, filled, longer) in
    rw same refl
