-- ===== src/Agent/RateLimit.antt =====
-- internal/agent/ratelimit.go: the token buckets of the access rules. A rule lets `num` requests
-- through in `den` nanoseconds; tokens are counted in parts of `den`, exactly, where the source has
-- float64. A key has one rule, and the clock is monotonic.
pub mod Bounds
pub mod Waiting
mod Samples
use edge_caddy.Prelude.{
  ℕ, ◌+◌, ◌-◌, ◌*◌, ◌/◌, Bool, true, false, not, ◌||◌, ◌&&◌, String, Option, none, some, List, [],
  ◌∷◌, leb, ◌==◌, if◌then◌else◌, min,
}
use edge_caddy.Prelude.Assoc.{Assoc, lookup, insert, delete}

abbrev pub second : ℕ
second = 1000000000

pub record Bucket : Type 0 where
  pub tokens : ℕ
  pub last : ℕ

-- The arguments `burst` and `rate` of `allow`.
pub record Rate : Type 0 where
  pub burst : ℕ
  pub num : ℕ
  pub den : ℕ

pub record Reply : Type 0 where
  pub is_allowed : Bool
  pub wait : ℕ

abbrev pub full : Rate → ℕ
full r = r.burst * r.den

-- The bucket when a request comes in: a new one is full, another one has been filled since.
unfoldable pub refill : Rate → ℕ → Option Bucket → Bucket
refill r now none = record { tokens = full r; last = now }
refill r now (some b) = record {
  tokens = min (full r) (b.tokens + (now - b.last) * r.num);
  last = now;
}

-- `wait.Truncate(time.Second)`
unfoldable pub wait_of : Rate → Bucket → ℕ
wait_of r b = ((r.den - b.tokens) / r.num + second) / second * second

unfoldable pub spend : Rate → Bucket → Bucket × Reply
unfolding wait_of
spend r b =
    if leb r.den b.tokens
    then (record b { tokens = b.tokens - r.den }, record { is_allowed = true; wait = 0 })
    else (b, record { is_allowed = false; wait = wait_of r b })

-- `allow`
unfoldable pub allow : Rate → ℕ → String → Assoc Bucket → Assoc Bucket × Reply
unfolding refill spend
allow r now key buckets =
    if r.burst == 0 || r.num == 0
    then (buckets, record { is_allowed = true; wait = 0 })
    else let (b, reply) = spend r (refill r now (lookup key buckets)) in
      (insert key b buckets, reply)

-- The test of `sweepPrefix`: the bucket would be full.
unfoldable pub is_full : Rate → ℕ → Bucket → Bool
is_full r now b = leb (full r) (b.tokens + (now - b.last) * r.num)
