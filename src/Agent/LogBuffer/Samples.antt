-- ===== src/Agent/LogBuffer/Samples.antt =====
-- Runs of the log buffer on concrete lines.
use edge_caddy.Prelude.{ℕ, ◌+◌, ◌*◌, ◌≤◌, length, true, ◌≡◌, refl, none, List, [], ◌∷◌}
use edge_caddy.Agent.LogBuffer.{
  log_batch_max, take, Event, logged, flush, send_done, send_failed, step, run,
}
use edge_caddy.Agent.LogBuffer.Order.{Subseq, idle}
use edge_caddy.Agent.LogBuffer.Received.{sent_in_order}

-- The tunnel breaks under the first batch, which reaches the master and is then sent again with what
-- came after it.
abbrev broken_once : List (Event ℕ)
broken_once =
    logged 1
    ∷ logged 2
    ∷ flush
    ∷ logged 3
    ∷ send_failed true
    ∷ flush
    ∷ logged 4
    ∷ send_done true
    ∷ []

run-broken_once : run idle broken_once ≡ (record {
  sent = 1 ∷ 2 ∷ 3 ∷ [];
  received = 1 ∷ 2 ∷ 1 ∷ 2 ∷ 3 ∷ [];
  in_flight = none;
  lines = 4 ∷ [];
})
unfolding run step take
run-broken_once = refl

sent_in_order_example :
    Subseq (run idle broken_once).sent (1 ∷ 2 ∷ 3 ∷ 4 ∷ [])
    × (length (run idle broken_once).received
        ≤ length {A = ℕ} (1 ∷ 2 ∷ 3 ∷ 4 ∷ []) + log_batch_max * 1)
sent_in_order_example = sent_in_order broken_once
