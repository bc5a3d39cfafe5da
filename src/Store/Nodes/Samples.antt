-- ===== src/Store/Nodes/Samples.antt =====
-- Lives of a row at concrete values.
use edge_caddy.Prelude.{true, false, List, [], ◌∷◌, none, some, ◌≡◌, refl, arith}
use edge_caddy.Health.State.{Status}
use edge_caddy.Store.Nodes.{NodeRow, manual, set_node_dns, reattach_after_recovery}
use edge_caddy.Store.Nodes.Intent.{
  Observation, went_offline, recovered, heartbeat, record_all, SameDecision, decision_survives,
  recovery_restores,
}

abbrev joined : NodeRow
joined = record {
  status = Status.ok;
  cfg_version = "cfg-1";
  last_hb_at = some 5;
  drained_at = none;
  dns_enabled = true;
  dns_reason = none;
  dns_actor = none;
  dns_changed_at = none;
}

abbrev switched_off : NodeRow
switched_off = record joined {
  dns_enabled = false;
  dns_reason = some manual;
  dns_actor = some "alice";
  dns_changed_at = some 7;
}

switched_off_by_hand : set_node_dns 7 false manual "alice" joined ≡ switched_off
unfolding set_node_dns
switched_off_by_hand = refl

abbrev flapping : List Observation
flapping = went_offline 8 ∷ recovered 9 ∷ heartbeat 9 "cfg-1" Status.ok ∷ went_offline 20 ∷ []

decision_survives_example : SameDecision (record_all flapping switched_off) switched_off
decision_survives_example = decision_survives flapping switched_off refl (ground arith)

recovery_restores_example :
    (reattach_after_recovery 30 (record_all flapping joined)).0.dns_enabled ≡ true
recovery_restores_example = recovery_restores flapping 30 joined refl refl
