-- ===== src/Health/State.antt =====
-- The state of the monitor (health.go): what a heartbeat carries, what is kept of a node, and the
-- settings. A `time.Time` is a number of nanoseconds since the zero time, which is 0, and a
-- `time.Duration` a number of nanoseconds. `a.Sub(b) < d` is written `a < b + d`, so that nothing is
-- subtracted below 0. A load in per cent (`float64`) is a number of thousandths of a per cent.
use edge_caddy.Prelude.{ℕ, ◌*◌, Bool, false, String, List, []}
use edge_caddy.Prelude.Assoc.{Assoc}

abbrev pub second : ℕ
second = 1000000000

abbrev pub hour : ℕ
hour = 3600 * second

abbrev pub cpu_series_len : ℕ
cpu_series_len = 12

abbrev pub gap_samples : ℕ
gap_samples = 5

-- `DefaultAssumedHeartbeat`
abbrev pub default_assumed_heartbeat : ℕ
default_assumed_heartbeat = 3 * second

-- `warnExitMargin`, 5 per cent
abbrev pub warn_exit_margin : ℕ
warn_exit_margin = 5000

-- The strings that `status` holds: "" in a new entry, and those of the database.
pub data Status : Type 0 where
  unset ok warn down : Status

pub record Sample : Type 0 where
  pub cpu : ℕ
  pub mem : ℕ
  pub conns : ℕ
  pub routes : ℕ
  pub rules : ℕ
  pub req_total : ℕ
  pub origin_total : ℕ
  pub blocked_total : ℕ
  pub at : ℕ

pub record BlockSample : Type 0 where
  pub at : ℕ
  pub n : ℕ

-- `prevReq`, `prevOrigin` and `hasPrev` are declared in the source and never used.
pub record NodeState : Type 0 where
  pub cpu : List ℕ
  pub last : Sample
  pub seen : Bool
  pub misses : ℕ
  pub down_sent : Bool
  pub status : Status
  pub prev_hb_at : ℕ
  pub gaps : List ℕ
  pub alive_at : ℕ
  pub blocked : List BlockSample
  pub prev_blocked : ℕ
  pub has_blocked : Bool

-- The fields of `tunnel.Heartbeat` that the monitor reads.
pub record Heartbeat : Type 0 where
  pub node_id : String
  pub cpu : ℕ
  pub mem : ℕ
  pub conns : ℕ
  pub routes : ℕ
  pub rules : ℕ
  pub req_total : ℕ
  pub origin_total : ℕ
  pub blocked_total : ℕ

-- `Config` without its collaborators, and the map of nodes.
pub record Monitor : Type 0 where
  pub interval : ℕ
  pub threshold : ℕ
  pub assumed_heartbeat : ℕ
  pub warn_cpu_pct : ℕ
  pub warn_mem_pct : ℕ
  pub nodes : Assoc NodeState

abbrev pub zero_sample : Sample
zero_sample = record {
  cpu = 0;
  mem = 0;
  conns = 0;
  routes = 0;
  rules = 0;
  req_total = 0;
  origin_total = 0;
  blocked_total = 0;
  at = 0;
}

-- `&nodeState{}`
abbrev pub zero_node : NodeState
zero_node = record {
  cpu = [];
  last = zero_sample;
  seen = false;
  misses = 0;
  down_sent = false;
  status = Status.unset;
  prev_hb_at = 0;
  gaps = [];
  alive_at = 0;
  blocked = [];
  prev_blocked = 0;
  has_blocked = false;
}

-- What an operation starts in the background: `go m.announce(...)` and `go m.recover(...)`.
pub data Effect : Type 0 where
  announce : String → Status → Effect
  recover : String → Effect
