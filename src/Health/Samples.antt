-- ===== src/Health/Samples.antt =====
-- Runs of the monitor at concrete values; times are small numbers here.
use edge_caddy.Prelude.{ℕ, ◌+◌, ◌≡◌, refl, true, false, List, [], ◌∷◌, arith}
use edge_caddy.Prelude.Assoc.{lookup, insert}
use edge_caddy.Health.State.{NodeState, Heartbeat, Monitor, zero_node}
use edge_caddy.Health.Observe.{observe_at}
use edge_caddy.Health.Tick.{deadline, gap, tick_node, tick_at}
use edge_caddy.Health.Tick.Silence.{ticks, IsWatched, ticks_exact}
use edge_caddy.Health.Episodes.{Op, observe, tick, step, run, is_reported, run_balance}

abbrev silent : NodeState
silent = record zero_node {
  seen = true;
  last = record zero_node.last { at = 100 };
  gaps = 9 ∷ 12 ∷ 11 ∷ [];
}

abbrev watch : Monitor
watch = record {
  interval = 10;
  threshold = 3;
  assumed_heartbeat = 10;
  warn_cpu_pct = 80000;
  warn_mem_pct = 90000;
  nodes = ("hk-1", silent) ∷ [];
}

silent_deadline : deadline watch silent.gaps ≡ 11
unfolding deadline gap
silent_deadline = refl

silent-IsWatched : IsWatched watch silent
silent-IsWatched = record { seen = refl; quiet = refl; below = omega arith }

ticks_exact_example : (ticks watch 2 105 silent).down_sent ≡ false
unfolding deadline gap
ticks_exact_example = ticks_exact watch 2 105 silent silent-IsWatched

abbrev beat : ℕ → Heartbeat
beat load = record {
  node_id = "hk-1";
  cpu = load;
  mem = 20000;
  conns = 3;
  routes = 2;
  rules = 1;
  req_total = 10;
  origin_total = 4;
  blocked_total = 0;
}

-- The node falls silent, is reported at the third late tick, and comes back.
abbrev episode : List Op
episode =
    tick 105
    ∷ tick 115
    ∷ tick 125
    ∷ tick 135
    ∷ tick 145
    ∷ observe (beat 1000) 150 150
    ∷ tick 155
    ∷ []

episode_counts : (run watch episode "hk-1").1 ≡ 1
unfolding run step observe_at tick_at tick_node deadline gap lookup insert
episode_counts = refl

run_balance_example :
    is_reported (run watch episode "hk-1").0 "hk-1" + (run watch episode "hk-1").2
    ≡ is_reported watch "hk-1" + (run watch episode "hk-1").1
unfolding lookup
run_balance_example = run_balance watch episode "hk-1" (refl, tt)

abbrev jitter : List Heartbeat
jitter = beat 79800 ∷ beat 80200 ∷ beat 79800 ∷ beat 75000 ∷ beat 99000 ∷ []
