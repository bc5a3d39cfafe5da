-- ===== src/Agent/Drain.antt =====
-- internal/agent/drain.go: `waitDrained`, which waits for the connections of a node to end. Times are in
-- nanoseconds.
pub mod Waits
mod Samples
use edge_caddy.Prelude.{
  ℕ, zero, suc, ◌+◌, ◌*◌, ◌/◌, Bool, true, false, ◌==◌, leb, Option, none, some, if◌then◌else◌,
}

-- `drainDeadline` and `drainPoll`
abbrev pub drain_deadline : ℕ
drain_deadline = 30 * 1000000000

abbrev pub drain_poll : ℕ
drain_poll = 500 * 1000000

pub record Drained : Type 0 where
  pub is_drained : Bool
  pub remaining : ℕ

abbrev or_default : ℕ → ℕ → ℕ
or_default default n = if n == 0 then default else n

-- The connections that the counts find, the time at each count, and whether the context has ended by
-- then.
pub record World : Type 0 where
  pub count : ℕ → ℕ
  pub time_of : ℕ → ℕ
  pub is_cancelled : ℕ → Bool

-- The loop, from a count on, with as many counts as it may still make.
unfoldable pub wait_loop : World → ℕ → ℕ → ℕ → Option Drained
wait_loop w deadline zero i = none
wait_loop w deadline (suc n) i =
    let later = wait_loop w deadline n (suc i) in
    if w.count i == 0
    then some (record { is_drained = true; remaining = 0 })
    else if leb deadline (w.time_of i)
    then some (record { is_drained = false; remaining = w.count i })
    else if w.is_cancelled i
    then some (record { is_drained = false; remaining = w.count i })
    else later

abbrev pub timeout_of : ℕ → ℕ
timeout_of timeout = or_default drain_deadline timeout

abbrev pub poll_of : ℕ → ℕ
poll_of poll = or_default drain_poll poll

-- The counts that are enough: one at each poll up to the deadline, and two more.
abbrev pub counts_of : ℕ → ℕ → ℕ
counts_of timeout poll = timeout / poll + 2

-- `waitDrained`, which starts at a time.
unfoldable pub wait_drained : World → ℕ → ℕ → ℕ → Option Drained
unfolding wait_loop
wait_drained w now timeout poll =
    wait_loop w (now + timeout_of timeout) (counts_of (timeout_of timeout) (poll_of poll)) 0
