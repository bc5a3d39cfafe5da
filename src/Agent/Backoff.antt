-- ===== src/Agent/Backoff.antt =====
-- internal/agent/backoff.go: how long the agent waits before it dials the tunnel again.
-- A `time.Duration` is a number of nanoseconds; a connection never lives for a negative time.
pub mod Bounds
mod Samples
use edge_caddy.Prelude.{ℕ, ◌+◌, ◌*◌, Bool, ◌||◌, List, [], ◌∷◌, ltb, leb, ◌==◌, if◌then◌else◌}

abbrev pub second : ℕ
second = 1000000000

abbrev pub backoff_floor : ℕ
backoff_floor = second

abbrev pub backoff_cap : ℕ
backoff_cap = 30 * second

abbrev pub steady_after : ℕ
steady_after = 60 * second

-- `cur` is 0 in the zero value.
pub record ReconnectBackoff : Type 0 where
  pub cur : ℕ

-- `if b.cur < backoffCap { b.cur *= 2; if b.cur > backoffCap { b.cur = backoffCap } }`
unfoldable pub advance : ℕ → ℕ
advance cur =
    if ltb cur backoff_cap
    then (if ltb backoff_cap (cur * 2) then backoff_cap else cur * 2)
    else cur

-- The new state and the wait.
unfoldable pub next : ReconnectBackoff → ℕ → ReconnectBackoff × ℕ
unfolding advance
next b connected_for =
    let start = if leb steady_after connected_for || b.cur == 0 then backoff_floor else b.cur in
    (record { cur = advance start }, start)

-- The waits of a run of disconnections, one for each connection that broke.
unfoldable pub waits : ReconnectBackoff → List ℕ → List ℕ
waits b [] = []
waits b (lived ∷ rest) = let (b', wait) = next b lived in wait ∷ waits b' rest
