-- ===== src/Store/Nodes/Intent.antt =====
-- What the system observes of a node does not undo what a person decided about it (nodes.go).
use edge_caddy.Prelude.{
  ℕ, true, false, String, List, [], ◌∷◌, none, some, ◌≡◌, ◌≢◌, refl, ◌⊎◌, inl, inr, arith, sym, ◌∙◌,
}
use edge_caddy.Health.State.{Status}
use edge_caddy.Store.Nodes.{
  auto_offline, NodeRow, touch_heartbeat, set_node_down, reattach_after_recovery,
}

-- What the health monitor and the tunnel write by themselves.
pub data Observation : Type 0 where
  went_offline : ℕ → Observation
  recovered : ℕ → Observation
  heartbeat : ℕ → String → Status → Observation

unfoldable pub record_observation : Observation → NodeRow → NodeRow
record_observation (went_offline now) row = set_node_down now row
record_observation (recovered now) row = (reattach_after_recovery now row).0
record_observation (heartbeat now version status) row = touch_heartbeat now version status row

unfoldable pub record_all : List Observation → NodeRow → NodeRow
record_all [] row = row
record_all (o ∷ os) row = record_all os (record_observation o row)

-- The columns that say who switched resolution off, and why.
pub record SameDecision (a b : NodeRow) : Type 0 where
  pub enabled : a.dns_enabled ≡ b.dns_enabled
  pub reason : a.dns_reason ≡ b.dns_reason
  pub actor : a.dns_actor ≡ b.dns_actor
  pub changed_at : a.dns_changed_at ≡ b.dns_changed_at
  pub drained_at : a.drained_at ≡ b.drained_at

SameDecision-observation :
    (o : Observation) (row : NodeRow)
    → row.dns_enabled ≡ false
    → row.dns_reason ≢ some auto_offline
    → SameDecision (record_observation o row) row
unfolding record_observation set_node_down touch_heartbeat reattach_after_recovery
SameDecision-observation (went_offline now) row off why = ground arith
SameDecision-observation (recovered now) row off why = ground arith
SameDecision-observation (heartbeat now version status) row off why = ground arith

-- Where resolution is off and it was not the system that switched it off, no sequence of timeouts,
-- recoveries and heartbeats changes the switch, its reason, who set it, when, or the draining.
pub decision_survives :
    (os : List Observation) (row : NodeRow)
    → row.dns_enabled ≡ false
    → row.dns_reason ≢ some auto_offline
    → SameDecision (record_all os row) row
unfolding record_all
decision_survives [] row off why = record {
  enabled = refl;
  reason = refl;
  actor = refl;
  changed_at = refl;
  drained_at = refl;
}
decision_survives (o ∷ os) row off why =
    let first = SameDecision-observation o row off why in
    let rest =
      decision_survives os (record_observation o row) (first.enabled ∙ off)
        (λ e. why (sym first.reason ∙ e)) in
    record {
      enabled = rest.enabled ∙ first.enabled;
      reason = rest.reason ∙ first.reason;
      actor = rest.actor ∙ first.actor;
      changed_at = rest.changed_at ∙ first.changed_at;
      drained_at = rest.drained_at ∙ first.drained_at;
    }

-- Resolution is on, or the system switched it off; and the node is not drained.
pub record IsOurs (row : NodeRow) : Type 0 where
  pub switch : (row.dns_enabled ≡ true) ⊎ (row.dns_reason ≡ some auto_offline)
  pub present : row.drained_at ≡ none

IsOurs-observation :
    (o : Observation) (row : NodeRow) → IsOurs row → IsOurs (record_observation o row)
unfolding record_observation set_node_down touch_heartbeat reattach_after_recovery
IsOurs-observation (went_offline now) row h = ground arith
IsOurs-observation (recovered now) row h = ground arith
IsOurs-observation (heartbeat now version status) row h = ground arith

IsOurs-observations :
    (os : List Observation) (row : NodeRow) → IsOurs row → IsOurs (record_all os row)
unfolding record_all
IsOurs-observations [] row h = h
IsOurs-observations (o ∷ os) row h =
    IsOurs-observations os (record_observation o row) (IsOurs-observation o row h)

reattach_of_auto :
    (now : ℕ) (row : NodeRow)
    → row.dns_reason ≡ some auto_offline
    → row.drained_at ≡ none
    → (reattach_after_recovery now row).0.dns_enabled ≡ true
unfolding reattach_after_recovery
reattach_of_auto now row why present = ground arith

reattach_of_on :
    (now : ℕ) (row : NodeRow)
    → row.dns_enabled ≡ true
    → (reattach_after_recovery now row).0.dns_enabled ≡ true
unfolding reattach_after_recovery
reattach_of_on now row on = ground arith

-- A node that is not drained and whose resolution is on is on again after a recovery, whatever
-- sequence of timeouts, recoveries and heartbeats came before it.
pub recovery_restores :
    (os : List Observation) (now : ℕ) (row : NodeRow)
    → row.dns_enabled ≡ true
    → row.drained_at ≡ none
    → (reattach_after_recovery now (record_all os row)).0.dns_enabled ≡ true
recovery_restores os now row on present =
    let ours = IsOurs-observations os row (record { switch = inl on; present = present }) in
    elim ours.switch [
      | inl still_on ↦ reattach_of_on now (record_all os row) still_on
      | inr auto ↦ reattach_of_auto now (record_all os row) auto ours.present
    ]
