-- ===== src/Agent/Backoff/Bounds.antt =====
-- The waits of backoff.go: their range, their growth and the reset.
use edge_caddy.Prelude.{
  ℕ, zero, suc, ◌*◌, ◌^◌, ◌≤◌, ◌<◌, ◌≡◌, refl, ◌⊎◌, List, [], ◌∷◌, arith, ap, min, All,
}
use native.Mathlib.Nat.{pow-suc}
use edge_caddy.Agent.Backoff.{
  ReconnectBackoff, second, backoff_floor, backoff_cap, steady_after, next, waits,
}

-- The zero value, or a value that `next` left behind.
pub record IsValid (b : ReconnectBackoff) : Type 0 where
  pub ranged : (b.cur ≡ 0) ⊎ (backoff_floor ≤ b.cur)
  pub capped : b.cur ≤ backoff_cap

abbrev pub InRange : ℕ → Type 0
InRange w = (backoff_floor ≤ w) × (w ≤ backoff_cap)

next-IsValid : (b : ReconnectBackoff) (lived : ℕ) → IsValid b → IsValid (next b lived).0
unfolding next
next-IsValid b lived v = ground arith

next-InRange : (b : ReconnectBackoff) (lived : ℕ) → IsValid b → InRange (next b lived).1
unfolding next
next-InRange b lived v = ground arith

-- From a valid state, whatever the lifetimes of the connections, every wait is between one
-- second and thirty seconds.
pub waits-InRange :
    (b : ReconnectBackoff) (lived : List ℕ) → IsValid b → All InRange (waits b lived)
unfolding waits
waits-InRange b [] v = tt
waits-InRange b (l ∷ ls) v =
    (next-InRange b l v, waits-InRange (next b l).0 ls (next-IsValid b l v))

-- After a connection that lived a minute or more the agent waits one second, whatever the state.
pub next_steady :
    (b : ReconnectBackoff) (lived : ℕ)
    → steady_after ≤ lived
    → next b lived ≡ (record { cur = 2 * second }, backoff_floor)
unfolding next
next_steady b lived h = ground arith

-- The capped doubling in closed form.
abbrev pub doubled : ℕ → ℕ
doubled k = min backoff_cap (second * 2 ^ k)

next_short_of :
    (p lived : ℕ)
    → 0 < p
    → lived < steady_after
    → next (record { cur = min backoff_cap (second * p) }) lived
      ≡ (record { cur = min backoff_cap (second * (2 * p)) }, min backoff_cap (second * p))
unfolding next
next_short_of p lived pos h = ground arith

two_pow-pos : (k : ℕ) → 0 < 2 ^ k
two_pow-pos zero = omega arith
two_pow-pos (suc k) = rw pow-suc (omega (arith, two_pow-pos k))

two_pow-suc : (k : ℕ) → 2 ^ suc k ≡ 2 * 2 ^ k
two_pow-suc k = rw pow-suc (omega arith)

next_short :
    (k lived : ℕ)
    → lived < steady_after
    → next (record { cur = doubled k }) lived ≡ (record { cur = doubled (suc k) }, doubled k)
next_short k lived h = rw (two_pow-suc k) (next_short_of (2 ^ k) lived (two_pow-pos k) h)

-- The waits of connections that break early, from the doubling's `k`-th value on.
abbrev pub doubling : ℕ → List ℕ → List ℕ
doubling k [] = []
doubling k (_ ∷ rest) = doubled k ∷ doubling (suc k) rest

abbrev pub IsShort : ℕ → Type 0
IsShort lived = lived < steady_after

waits_short :
    (k : ℕ) (lived : List ℕ)
    → All IsShort lived
    → waits (record { cur = doubled k }) lived ≡ doubling k lived
unfolding waits
waits_short k [] h = refl
waits_short k (l ∷ ls) h =
    rw (ap (λ r. r.1) (next_short k l h.0), ap (λ r. r.0) (next_short k l h.0))
      (ap (λ r. doubled k ∷ r) (waits_short (suc k) ls h.1))

zero_next : (lived : ℕ) → next (record { cur = 0 }) lived ≡ next (record { cur = doubled 0 }) lived
unfolding next
zero_next lived = ground arith

-- From the zero value, while every connection breaks within a minute, the waits are 1 s, 2 s, 4 s
-- and so on, capped at thirty seconds.
pub waits-doubling :
    (lived : List ℕ) → All IsShort lived → waits (record { cur = 0 }) lived ≡ doubling 0 lived
unfolding waits
waits-doubling [] h = refl
waits-doubling (l ∷ ls) h = rw (zero_next l) (waits_short 0 (l ∷ ls) h)
