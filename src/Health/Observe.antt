-- ===== src/Health/Observe.antt =====
-- Heartbeats and settings: `New`, `SetTiming`, `observeAt`, `Alive`, `classify`, `warm`, `Forget` and the
-- readers `Latest`, `CPUSeries` and `BlockedLastHour` of health.go.
pub mod Windows
use edge_caddy.Prelude.{
  ℕ, ◌+◌, ◌-◌, ◌*◌, ◌/◌, ◌%◌, ◌^◌, Bool, true, false, not, ◌&&◌, ◌||◌, String, List, [], ◌∷◌, ◌++◌,
  Option, none, some, ltb, leb, ◌==◌, if◌then◌else◌, keep_last, length,
}
use edge_caddy.Prelude.Assoc.{Assoc, lookup, insert, delete}
use edge_caddy.Health.State.{
  second, hour, cpu_series_len, gap_samples, default_assumed_heartbeat, warn_exit_margin, Status,
  Sample, BlockSample, NodeState, Heartbeat, Monitor, zero_node, Effect, announce, recover,
}

abbrev default_to : ℕ → ℕ → ℕ
default_to n d = if n == 0 then d else n

-- `New`: what is not positive gets its default.
unfoldable pub new : ℕ → ℕ → ℕ → ℕ → ℕ → Monitor
new interval threshold assumed cpu mem = record {
  interval = default_to interval (3 * second);
  threshold = default_to threshold 5;
  assumed_heartbeat = default_to assumed default_assumed_heartbeat;
  warn_cpu_pct = default_to cpu 80000;
  warn_mem_pct = default_to mem 90000;
  nodes = [];
}

-- `SetTiming`; the wake-up of `Run` has no part in the state.
unfoldable pub set_timing : Monitor → ℕ → ℕ → Monitor
set_timing m interval threshold = record m {
  interval = default_to interval m.interval;
  threshold = default_to threshold m.threshold;
}

abbrev is_warn : Status → Bool
is_warn Status.warn = true
is_warn _ = false

-- `classify`: leaving `warn` takes five per cent more than entering it.
unfoldable pub classify : Monitor → Heartbeat → Status → Status
classify m hb prev =
    if is_warn prev
    then (if leb m.warn_cpu_pct (hb.cpu + warn_exit_margin)
          || leb m.warn_mem_pct (hb.mem + warn_exit_margin)
        then Status.warn
        else Status.ok)
    else if leb m.warn_cpu_pct hb.cpu || leb m.warn_mem_pct hb.mem
    then Status.warn
    else Status.ok

abbrev pub same_status : Status → Status → Bool
same_status Status.unset Status.unset = true
same_status Status.ok Status.ok = true
same_status Status.warn Status.warn = true
same_status Status.down Status.down = true
same_status _ _ = false

-- `trimOlderThan` with a window of an hour; `clock` is its own reading of the time.
unfoldable pub trim_older_than : ℕ → List BlockSample → List BlockSample
trim_older_than clock [] = []
trim_older_than clock (s ∷ rest) =
    if ltb (s.at + hour) clock then trim_older_than clock rest else s ∷ rest

-- What was blocked since the last heartbeat, if the counter did not restart.
unfoldable pub count_blocked : ℕ → ℕ → NodeState → List BlockSample
count_blocked total now st =
    if st.has_blocked && leb st.prev_blocked total && ltb 0 (total - st.prev_blocked)
    then st.blocked ++ (record { at = now; n = total - st.prev_blocked }) ∷ []
    else st.blocked

-- The time since the last heartbeat, unless there is none or the clock stood still.
unfoldable pub push_gap : ℕ → NodeState → List ℕ
push_gap now st =
    if not (st.prev_hb_at == 0) && ltb st.prev_hb_at now
    then keep_last gap_samples (st.gaps ++ (now - st.prev_hb_at) ∷ [])
    else st.gaps

-- `observeAt` on the entry of the node.
unfoldable pub observe_node : Monitor → Heartbeat → ℕ → ℕ → NodeState → NodeState
unfolding classify trim_older_than count_blocked push_gap
observe_node m hb now clock st = record {
  cpu = keep_last cpu_series_len (st.cpu ++ ((hb.cpu + 500) / 1000) ∷ []);
  last = record {
    cpu = hb.cpu;
    mem = hb.mem;
    conns = hb.conns;
    routes = hb.routes;
    rules = hb.rules;
    req_total = hb.req_total;
    origin_total = hb.origin_total;
    blocked_total = 0;
    at = now;
  };
  seen = true;
  misses = 0;
  down_sent = false;
  status = classify m hb st.status;
  prev_hb_at = now;
  gaps = push_gap now st;
  alive_at = st.alive_at;
  blocked = trim_older_than clock (count_blocked hb.blocked_total now st);
  prev_blocked = hb.blocked_total;
  has_blocked = true;
}

abbrev pub entry : Option NodeState → NodeState
entry none = zero_node
entry (some st) = st

-- The goroutines that `observeAt` starts.
unfoldable pub observe_effects : Monitor → Heartbeat → NodeState → List Effect
observe_effects m hb st =
    let status = classify m hb st.status in
    (if same_status status st.status then [] else announce hb.node_id status ∷ [])
    ++ (if st.down_sent then recover hb.node_id ∷ [] else [])

-- `observeAt`: the monitor, the goroutines and the health that is returned.
unfoldable pub observe_at : Monitor → Heartbeat → ℕ → ℕ → Monitor × List Effect × Status
unfolding observe_node observe_effects
observe_at m hb now clock =
    let st = entry (lookup hb.node_id m.nodes) in
    (
      record m { nodes = insert hb.node_id (observe_node m hb now clock st) m.nodes },
      observe_effects m hb st,
      classify m hb st.status,
    )

-- The body of `Alive`, on what the map has under the id.
unfoldable pub touch : String → ℕ → Option NodeState → Assoc NodeState → Assoc NodeState
touch id now none nodes = nodes
touch id now (some st) nodes =
    insert id (record st { alive_at = now; misses = 0; prev_hb_at = 0 }) nodes

-- `Alive`: a tunnel handshake. A node that is not known is left alone.
unfoldable pub alive : Monitor → String → ℕ → Monitor
alive m id now = record m { nodes = touch id now (lookup id m.nodes) m.nodes }

unfoldable pub forget : Monitor → String → Monitor
forget m id = record m { nodes = delete id m.nodes }

-- The columns of `store.Node` that `warm` reads.
pub record KnownNode : Type 0 where
  pub id : String
  pub status : Status
  pub drained : Bool
  pub last_hb_at : Option ℕ

abbrev is_down : Status → Bool
is_down Status.down = true
is_down _ = false

abbrev time_or_zero : Option ℕ → ℕ
time_or_zero none = 0
time_or_zero (some t) = t

unfoldable pub warm_entry : KnownNode → NodeState
warm_entry node = record zero_node {
  seen = true;
  status = node.status;
  last = record zero_node.last { at = time_or_zero node.last_hb_at };
  down_sent = is_down node.status;
}

-- The loop of `warm`, over the nodes that the database listed.
unfoldable pub warm : Assoc NodeState → List KnownNode → Assoc NodeState
unfolding warm_entry
warm nodes [] = nodes
warm nodes (node ∷ rest) =
    warm
      (elim (lookup node.id nodes) [
        | some _ ↦ nodes
        | none ↦ if node.drained then nodes else insert node.id (warm_entry node) nodes
      ])
      rest

-- `Latest`
unfoldable pub latest : Monitor → String → Option Sample
latest m id = elim (lookup id m.nodes) [
  | none ↦ none
  | some st ↦ if st.seen then some st.last else none
]

-- `CPUSeries`; `none` is `nil`
unfoldable pub cpu_series : Monitor → String → Option (List ℕ)
cpu_series m id = elim (lookup id m.nodes) [
  | none ↦ none
  | some st ↦ if length st.cpu == 0 then none else some st.cpu
]

abbrev pub u64 : ℕ → ℕ
u64 n = n % 2 ^ 64

-- The loop of `BlockedLastHour`.
unfoldable pub sum_blocked : ℕ → ℕ → List BlockSample → ℕ
sum_blocked clock n [] = n
sum_blocked clock n (s ∷ rest) =
    sum_blocked clock (if ltb clock (s.at + hour) then u64 (n + s.n) else n) rest

unfoldable pub blocked_last_hour : Monitor → String → ℕ → Option ℕ
unfolding sum_blocked
blocked_last_hour m id clock = elim (lookup id m.nodes) [
  | none ↦ none
  | some st ↦ if st.has_blocked then some (sum_blocked clock 0 st.blocked) else none
]
