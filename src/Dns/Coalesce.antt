-- ===== src/Dns/Coalesce.antt =====
-- internal/dnsops/orchestrator.go: `syncCoalesced`, which `Attach` and `Detach` call, as steps on the
-- state that `mu` and `coalesceMu` guard. A version counts the writes to the tables that a
-- synchronisation reads; calls, batches and reads are kept for the theorems.
pub mod Freshness
mod Samples
use edge_caddy.Prelude.{ℕ, ◌+◌, Bool, true, false, Option, none, some, List, [], ◌∷◌}

-- A call of `syncCoalesced`, with the batch (a `coalesced`) whose end it waits for.
pub record Call : Type 0 where
  pub batch : ℕ
  pub asked_at : ℕ

-- A synchronisation of a batch, with the version that it read.
pub record Read : Type 0 where
  pub batch : ℕ
  pub version : ℕ

pub record Orchestrator : Type 0 where
  pub version : ℕ
  -- the batch that has not begun
  pub pending : Option ℕ
  -- `mu` is held
  pub busy : Bool
  pub next_batch : ℕ
  pub calls : List Call
  pub reads : List Read

pub data Event : Type 0 where
  -- the tables are written
  write : Event
  -- `syncCoalesced` is called, up to the end of its first critical section
  call : Event
  -- the caller that made the pending batch gets `mu`
  begin : Event
  -- `Sync` of the weights page gets `mu`
  begin_direct : Event
  -- the holder of `mu` is done
  release : Event

abbrev pub idle : Orchestrator
idle = record { version = 0; pending = none; busy = false; next_batch = 0; calls = []; reads = [] }

-- A call joins the pending batch, or makes a new one.
unfoldable pub join : Option ℕ → Orchestrator → Orchestrator
join (some b) s = record s { calls = (record { batch = b; asked_at = s.version }) ∷ s.calls }
join none s = record s {
  pending = some s.next_batch;
  next_batch = s.next_batch + 1;
  calls = (record { batch = s.next_batch; asked_at = s.version }) ∷ s.calls;
}

-- The pending batch begins: it takes no more calls, and reads the tables.
unfoldable pub start : Bool → Option ℕ → Orchestrator → Orchestrator
start false (some b) s = record s {
  pending = none;
  busy = true;
  reads = (record { batch = b; version = s.version }) ∷ s.reads;
}
start _ _ s = s

unfoldable pub step : Orchestrator → Event → Orchestrator
unfolding join start
step s write = record s { version = s.version + 1 }
step s call = join s.pending s
step s begin = start s.busy s.pending s
step s begin_direct = record s { busy = true }
step s release = record s { busy = false }

unfoldable pub run : Orchestrator → List Event → Orchestrator
unfolding step
run s [] = s
run s (e ∷ es) = run (step s e) es
