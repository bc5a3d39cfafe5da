-- ===== src/Store/Nodes.antt =====
-- One row of `edge_nodes` and the statements of internal/store/nodes.go that change it. A statement's
-- `WHERE id = $1` selects the row; `now` is the database's clock. An error changes nothing and is
-- left out.
pub mod Intent
mod Samples
use edge_caddy.Prelude.{
  ℕ, Bool, true, false, String, Option, none, some, str_eq, if◌then◌else◌, ◌&&◌,
}
use edge_caddy.Health.State.{Status}

-- The enumeration `dns_change_reason`.
pub data Reason : Type 0 where
  manual auto_offline drained : Reason

pub record NodeRow : Type 0 where
  pub status : Status
  pub cfg_version : String
  pub last_hb_at : Option ℕ
  pub drained_at : Option ℕ
  pub dns_enabled : Bool
  pub dns_reason : Option Reason
  pub dns_actor : Option String
  pub dns_changed_at : Option ℕ

-- `nullif(s, '')`
abbrev pub nullif : String → Option String
nullif s = if str_eq s "" then none else some s

-- `touchHeartbeat` on the columns modelled: any health but "warn" is written as "ok".
unfoldable pub touch_heartbeat : ℕ → String → Status → NodeRow → NodeRow
touch_heartbeat now version Status.warn row = record row {
  last_hb_at = some now;
  status = Status.warn;
  cfg_version = version;
}
touch_heartbeat now version _ row = record row {
  last_hb_at = some now;
  status = Status.ok;
  cfg_version = version;
}

-- `SetNodeDown`
unfoldable pub set_node_down : ℕ → NodeRow → NodeRow
set_node_down now row = record row {
  status = Status.down;
  dns_enabled = false;
  dns_reason = if row.dns_enabled then some auto_offline else row.dns_reason;
  dns_actor = if row.dns_enabled then none else row.dns_actor;
  dns_changed_at = if row.dns_enabled then some now else row.dns_changed_at;
}

-- `SetNodeDrained`
unfoldable pub set_node_drained : ℕ → Bool → String → NodeRow → NodeRow
set_node_drained now true actor row = record row {
  drained_at = some now;
  dns_enabled = false;
  dns_reason = some drained;
  dns_actor = nullif actor;
  dns_changed_at = some now;
}
set_node_drained now false actor row = record row { drained_at = none }

-- `SetNodeDNS`
unfoldable pub set_node_dns : ℕ → Bool → Reason → String → NodeRow → NodeRow
set_node_dns now enabled reason actor row = record row {
  dns_enabled = enabled;
  dns_reason = some reason;
  dns_actor = nullif actor;
  dns_changed_at = some now;
}

abbrev is_auto : Option Reason → Bool
is_auto (some auto_offline) = true
is_auto _ = false

abbrev is_null : Option ℕ → Bool
is_null none = true
is_null (some _) = false

-- `ReattachAfterRecovery`: the row, and whether one was affected.
unfoldable pub reattach_after_recovery : ℕ → NodeRow → NodeRow × Bool
reattach_after_recovery now row =
    if is_auto row.dns_reason && is_null row.drained_at
    then (
      record row {
        dns_enabled = true;
        dns_reason = none;
        dns_actor = none;
        dns_changed_at = some now;
      },
      true,
    )
    else (row, false)
