-- ===== src/Dns/Plan/Samples.antt =====
-- A line with three nodes, one of them new.
use edge_caddy.Prelude.{
  ◌+◌, ◌*◌, ◌≤◌, Bool, true, false, ◌&&◌, String, List, [], ◌∷◌, ◌≡◌, refl, has, length, arith, All,
}
use edge_caddy.Prelude.Assoc.{lookup}
use edge_caddy.Health.State.{Status}
use edge_caddy.Dns.Plan.{
  Line, NodeState, Weights, of_line, build, rotation, line_plan, in_use, total_of, add_nodes, keys,
  entries_of, entry_of, by_id, takes_part, with_shares, share_of,
}
use edge_caddy.Dns.Plan.Shares.{sum_shares, sum_shares-line_plan}
use edge_caddy.Dns.Plan.Candidates.{names, in_service, rule}
use edge_caddy.Dns.Plan.InRotation.{OffWhenDrained, has-rotation}

abbrev node : String → Bool → NodeState
node id enabled = record {
  id = id;
  ip = "192.0.2.1";
  dns_enabled = enabled;
  status = Status.ok;
  drained = false;
}

abbrev nodes : List NodeState
nodes = node "hk-1" true ∷ node "hk-2" true ∷ node "sg-1" true ∷ []

abbrev weights : Weights
weights = ("ct", ("hk-1", 1) ∷ ("hk-2", 2) ∷ []) ∷ []

abbrev telecom : Line
telecom = record { code = "ct"; name = "电信" }

abbrev in_order : List String → List String
in_order ids = ids

sum_shares-line_plan_example :
    (2 * sum_shares (in_use (line_plan in_order true weights nodes telecom).entries)
      ≤ 2000 + length (in_use (line_plan in_order true weights nodes telecom).entries))
    × (2000
        ≤ 2 * sum_shares (in_use (line_plan in_order true weights nodes telecom).entries)
          + length (in_use (line_plan in_order true weights nodes telecom).entries))
unfolding line_plan total_of lookup add_nodes keys entries_of entry_of by_id takes_part with_shares
    share_of
sum_shares-line_plan_example =
    sum_shares-line_plan in_order true weights nodes telecom (omega arith)

nodes-OffWhenDrained : All OffWhenDrained nodes
nodes-OffWhenDrained = (λ h. cc, (λ h. cc, (λ h. cc, tt)))

-- `Build` itself does not look: a node with a weight that is drained but enabled is in rotation.
abbrev half_drained : List NodeState
half_drained = record (node "hk-1" true) { drained = true } ∷ []

half_drained_used :
    names (rotation (build in_order "example.com" true weights half_drained) "ct") ≡ "hk-1" ∷ []
unfolding build rotation line_plan total_of lookup add_nodes keys entries_of entry_of by_id
    takes_part with_shares share_of
half_drained_used = refl

-- The new node has no weight, so it is not in rotation while weights count.
has-rotation_example :
    has "sg-1" (names (rotation (build in_order "example.com" true weights nodes) "ct"))
    ≡ (in_service "sg-1" nodes && rule true nodes (of_line (lookup "ct" weights)) "sg-1")
has-rotation_example =
    has-rotation in_order "example.com" true weights nodes "ct" "sg-1" (λ x xs. refl)
      nodes-OffWhenDrained refl
