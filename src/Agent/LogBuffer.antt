-- ===== src/Agent/LogBuffer.antt =====
-- internal/agent/logbuf.go, and the loop of agent.go that drains it. A log line is of any type: the
-- buffer never looks into one. `take` and `put_back` are called by `log_loop` alone, one after the
-- other, so that Go's slices (which share an array) behave as the lists do here.
pub mod Order
pub mod Received
mod Samples
use edge_caddy.Prelude.{
  ℕ, Bool, if◌then◌else◌, List, [], ◌∷◌, ◌++◌, Option, none, some, length, min, keep_last,
}
use edge_caddy.Prelude.Lists

abbrev pub log_capacity : ℕ
log_capacity = 500

abbrev pub log_batch_max : ℕ
log_batch_max = 100

module _ {A : Type 0} where
  -- `add`: append, then keep the newest `logCapacity` lines.
  unfoldable pub add : A → List A → List A
  add line lines = keep_last log_capacity (lines ++ line ∷ [])

  -- `take`: the batch and what stays behind. `nil` is the empty batch.
  unfoldable pub take : List A → List A × List A
  take lines = let n = min (length lines) log_batch_max in (Lists.take n lines, Lists.drop n lines)

  -- `putBack`: the batch goes in front of the queue, and the oldest lines over the bound go.
  unfoldable pub put_back : List A → List A → List A
  put_back batch lines = keep_last log_capacity (batch ++ lines)

-- The agent as the log sees it: `sent` is what `out.Send` accepted, in order, and `received` what reached
-- the master, which may be more or less. `in_flight` is the batch between `take` and the return of
-- `Send`; lines may be added meanwhile.
pub record Agent (A : Type 0) : Type 0 where
  pub sent : List A
  pub received : List A
  pub in_flight : Option (List A)
  pub lines : List A

pub data Event (A : Type 0) : Type 0 where
  -- a log call
  logged : A → Event A
  -- the ticker fires
  flush : Event A
  -- `out.Send` returns, without an error or with one; the batch has reached the master, or has not
  send_done : Bool → Event A
  send_failed : Bool → Event A

module _ {A : Type 0} where
  -- the ticker fires in the loop only when no `Send` is under way; an empty batch is not sent
  unfoldable pub start : List A × List A → Agent A → Agent A
  start ([], rest) s = record s { lines = rest }
  start (l ∷ batch, rest) s = record s { in_flight = some (l ∷ batch); lines = rest }

  abbrev pub reached : Bool → List A → List A → List A
  reached arrived batch received = if arrived then received ++ batch else received

  unfoldable pub step : Agent A → Event A → Agent A
  unfolding start add put_back
  step s (logged line) = record s { lines = add line s.lines }
  step s flush = elim s.in_flight [ none ↦ start (take s.lines) s | some batch ↦ s ]
  step s (send_done arrived) = elim s.in_flight [
    | none ↦ s
    | some batch ↦ record s {
      sent = s.sent ++ batch;
      received = reached arrived batch s.received;
      in_flight = none;
    }
  ]
  step s (send_failed arrived) = elim s.in_flight [
    | none ↦ s
    | some batch ↦ record s {
      received = reached arrived batch s.received;
      in_flight = none;
      lines = put_back batch s.lines;
    }
  ]

  unfoldable pub run : Agent A → List (Event A) → Agent A
  run s [] = s
  run s (e ∷ es) = run (step s e) es
