-- ===== src/Agent/Drain/Samples.antt =====
-- A node whose connections do not end in time.
use edge_caddy.Prelude.{suc, ◌+◌, ◌*◌, false, some, ◌≡◌, refl, arith}
use edge_caddy.Agent.Drain.{World, wait_drained, poll_of}
use edge_caddy.Agent.Drain.Waits.{IsPolled, IsTrue, wait_drained-IsTrue}

abbrev busy_node : World
busy_node = record {
  count = λ i. suc (suc i);
  time_of = λ i. 100 + i * 3;
  is_cancelled = λ i. false;
}

busy_node-IsPolled : IsPolled busy_node 100 (poll_of 3)
busy_node-IsPolled = (omega arith, λ i. omega arith)

busy_remaining :
    wait_drained busy_node 100 5 3 ≡ some (record { is_drained = false; remaining = 4 })
unfolding wait_drained
busy_remaining = refl

wait_drained-IsTrue_example : IsTrue busy_node (wait_drained busy_node 100 5 3)
wait_drained-IsTrue_example = wait_drained-IsTrue busy_node 100 5 3 busy_node-IsPolled
