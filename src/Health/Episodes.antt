-- ===== src/Health/Episodes.antt =====
-- Runs of the monitor: every offline episode of a node is reported once and recovered from once.
use edge_caddy.Prelude.{
  ℕ, ◌+◌, ◌≡◌, refl, Bool, true, false, String, List, [], ◌∷◌, Option, none, some, arith,
  Bool-cases, sym, inl, inr, ap, ◌∙◌, str_eq, eq_iff, if◌then◌else◌,
}
use edge_caddy.Prelude.Assoc.{
  Assoc, lookup, insert, lookup-insert, lookup_same, Distinct, insert-Distinct,
}
use edge_caddy.Health.State.{NodeState, Heartbeat, Monitor, Effect, announce, recover}
use edge_caddy.Health.Observe.{
  entry, observe_node, observe_effects, observe_at, alive, touch, set_timing,
}
use edge_caddy.Health.Tick.{tick_node, tick_nodes, tick_at}

-- What happens to the monitor while it runs.
pub data Op : Type 0 where
  observe : Heartbeat → ℕ → ℕ → Op
  handshake : String → ℕ → Op
  tick : ℕ → Op
  retime : ℕ → ℕ → Op

-- The monitor, the nodes to be marked down and the goroutines.
unfoldable pub step : Monitor → Op → Monitor × List String × List Effect
step m (observe hb now clock) =
    let (m', effects, status) = observe_at m hb now clock in (m', [], effects)
step m (handshake id now) = (alive m id now, [], [])
step m (tick now) = let (m', late) = tick_at m now in (m', late, [])
step m (retime interval threshold) = (set_timing m interval threshold, [], [])

abbrev pub bit : Bool → ℕ
bit true = 1
bit false = 0

-- How often a node is in the list of those to be marked down.
abbrev pub marks_of : String → List String → ℕ
marks_of id [] = 0
marks_of id (j ∷ js) = bit (str_eq j id) + marks_of id js

abbrev is_recovery : String → Effect → Bool
is_recovery id (announce j status) = false
is_recovery id (recover j) = str_eq j id

abbrev pub recoveries_of : String → List Effect → ℕ
recoveries_of id [] = 0
recoveries_of id (e ∷ es) = bit (is_recovery id e) + recoveries_of id es

abbrev reported : Option NodeState → ℕ
reported none = 0
reported (some st) = bit st.down_sent

-- 1 while the node counts as reported down, else 0.
abbrev pub is_reported : Monitor → String → ℕ
is_reported m id = reported (lookup id m.nodes)

-- The marks and the recoveries of a node in a run, and where the run ends.
unfoldable pub run : Monitor → List Op → String → Monitor × ℕ × ℕ
run m [] id = (m, 0, 0)
run m (op ∷ ops) id =
    let (m', late, effects) = step m op in
    let (end, marks, recoveries) = run m' ops id in
    (end, marks_of id late + marks, recoveries_of id effects + recoveries)

tick_node_reported :
    (m : Monitor) (now : ℕ) (st : NodeState)
    → bit (tick_node m now st).0.down_sent ≡ bit st.down_sent + bit (tick_node m now st).1
unfolding tick_node
tick_node_reported m now st = ground arith

abbrev after_tick : Monitor → ℕ → Option NodeState → Option NodeState
after_tick m now none = none
after_tick m now (some st) = some (tick_node m now st).0

abbrev marked_by : Monitor → ℕ → Option NodeState → ℕ
marked_by m now none = 0
marked_by m now (some st) = bit (tick_node m now st).1

lookup-tick_nodes :
    (m : Monitor) (now : ℕ) (id : String) (ns : Assoc NodeState)
    → lookup id (tick_nodes m now ns).0 ≡ after_tick m now (lookup id ns)
unfolding lookup tick_nodes
lookup-tick_nodes m now id [] = refl
lookup-tick_nodes m now id ((j, st) ∷ ns) = elim (Bool-cases (str_eq j id)) [
  | inl same ↦ rw same refl
  | inr other ↦ rw other (lookup-tick_nodes m now id ns)
]

marks_of-cons :
    (id j : String) (b : Bool) (js : List String)
    → marks_of id (if b then j ∷ js else js) ≡ (if str_eq j id then bit b else 0) + marks_of id js
marks_of-cons id j b js = ground arith

marks_of-tick_nodes :
    (m : Monitor) (now : ℕ) (id : String) (ns : Assoc NodeState)
    → Distinct ns
    → marks_of id (tick_nodes m now ns).1 ≡ marked_by m now (lookup id ns)
unfolding lookup tick_nodes
marks_of-tick_nodes m now id [] d = refl
marks_of-tick_nodes m now id ((j, st) ∷ ns) d =
    marks_of-cons id j (tick_node m now st).1 (tick_nodes m now ns).1
    ∙ (elim (Bool-cases (str_eq j id)) [
      | inl same ↦ rw same (
          omega (
            arith,
            marks_of-tick_nodes m now id ns d.1,
            ap (marked_by m now) (sym (lookup_same j id ns same) ∙ d.0),
          ))
      | inr other ↦ rw other (omega (arith, marks_of-tick_nodes m now id ns d.1))
    ])

tick_nodes-Distinct :
    (m : Monitor) (now : ℕ) (ns : Assoc NodeState) → Distinct ns → Distinct (tick_nodes m now ns).0
unfolding tick_nodes
tick_nodes-Distinct m now [] d = tt
tick_nodes-Distinct m now ((j, st) ∷ ns) d =
    (rw (lookup-tick_nodes m now j ns) (rw d.0 refl), tick_nodes-Distinct m now ns d.1)

insert-reported :
    (id j : String) (st : NodeState) (ns : Assoc NodeState)
    → reported (lookup id (insert j st ns))
      ≡ (if str_eq j id then bit st.down_sent else reported (lookup id ns))
insert-reported id j st ns = rw (lookup-insert j id st ns) (ground arith)

-- what `observeAt` starts of recoveries
recoveries-observe :
    (m : Monitor) (hb : Heartbeat) (id : String) (st : NodeState)
    → recoveries_of id (observe_effects m hb st)
      ≡ (if str_eq hb.node_id id then bit st.down_sent else 0)
unfolding observe_effects
recoveries-observe m hb id st = ground arith

reported-entry : (o : Option NodeState) → reported o ≡ bit (entry o).down_sent
reported-entry none = refl
reported-entry (some st) = refl

reported-after_tick :
    (m : Monitor) (now : ℕ) (o : Option NodeState)
    → reported (after_tick m now o) ≡ reported o + marked_by m now o
reported-after_tick m now none = omega arith
reported-after_tick m now (some st) = tick_node_reported m now st

observe_balance :
    (m : Monitor) (hb : Heartbeat) (id : String) (st' : NodeState)
    → st'.down_sent ≡ false
    → reported (lookup id (insert hb.node_id st' m.nodes))
        + recoveries_of id (observe_effects m hb (entry (lookup hb.node_id m.nodes)))
      ≡ reported (lookup id m.nodes)
observe_balance m hb id st' cleared = elim (Bool-cases (str_eq hb.node_id id)) [
  | inl same ↦
      rw
        (
          insert-reported id hb.node_id st' m.nodes,
          recoveries-observe m hb id (entry (lookup hb.node_id m.nodes)),
        )
        (rw same (
          omega (
            arith,
            ap bit cleared,
            reported-entry (lookup hb.node_id m.nodes),
            ap (λ i. reported (lookup i m.nodes)) ((eq_iff hb.node_id id).0 same),
          )))
  | inr other ↦
      rw
        (
          insert-reported id hb.node_id st' m.nodes,
          recoveries-observe m hb id (entry (lookup hb.node_id m.nodes)),
        )
        (rw other (omega arith))
]

reported-touch :
    (j id : String) (now : ℕ) (o : Option NodeState) (ns : Assoc NodeState)
    → lookup j ns ≡ o
    → reported (lookup id (touch j now o ns)) ≡ reported (lookup id ns)
unfolding touch
reported-touch j id now none ns e = refl
reported-touch j id now (some st) ns e =
    insert-reported id j (record st { alive_at = now; misses = 0; prev_hb_at = 0 }) ns
    ∙ (elim (Bool-cases (str_eq j id)) [
      | inl same ↦
          rw same
            (sym (ap (λ i. reported (lookup i ns)) (sym ((eq_iff j id).0 same)) ∙ ap reported e))
      | inr other ↦ rw other refl
    ])

touch-Distinct :
    (j : String) (now : ℕ) (o : Option NodeState) (ns : Assoc NodeState)
    → Distinct ns
    → Distinct (touch j now o ns)
unfolding touch
touch-Distinct j now none ns d = d
touch-Distinct j now (some st) ns d = insert-Distinct j _ ns d

-- One step: the flag of a node and its recoveries, against the flag before and its marks.
step_balance :
    (m : Monitor) (op : Op) (id : String)
    → Distinct m.nodes
    → is_reported (step m op).0 id + recoveries_of id (step m op).2
      ≡ is_reported m id + marks_of id (step m op).1
unfolding step observe_at tick_at set_timing alive
step_balance m (observe hb now clock) id d = omega (
  arith,
  observe_balance m hb id (observe_node m hb now clock (entry (lookup hb.node_id m.nodes))) refl,
)
step_balance m (handshake j now) id d =
    omega (arith, reported-touch j id now (lookup j m.nodes) m.nodes refl)
step_balance m (tick now) id d = omega (
  arith,
  ap reported (lookup-tick_nodes m now id m.nodes),
  reported-after_tick m now (lookup id m.nodes),
  marks_of-tick_nodes m now id m.nodes d,
)
step_balance m (retime interval threshold) id d = omega arith

step-Distinct : (m : Monitor) (op : Op) → Distinct m.nodes → Distinct (step m op).0.nodes
unfolding step observe_at tick_at set_timing alive
step-Distinct m (observe hb now clock) d = insert-Distinct hb.node_id _ m.nodes d
step-Distinct m (handshake j now) d = touch-Distinct j now (lookup j m.nodes) m.nodes d
step-Distinct m (tick now) d = tick_nodes-Distinct m now m.nodes d
step-Distinct m (retime interval threshold) d = d

-- From a monitor that has every node once, over any run of heartbeats, handshakes, ticks and
-- changed settings, the number of times that a node is to be marked down, plus 1 if it was
-- reported at the start, is the number of its recoveries, plus 1 if it is reported at the end.
pub run_balance :
    (m : Monitor) (ops : List Op) (id : String)
    → Distinct m.nodes
    → is_reported (run m ops id).0 id + (run m ops id).2 ≡ is_reported m id + (run m ops id).1
unfolding run
run_balance m [] id d = omega arith
run_balance m (op ∷ ops) id d =
    omega (arith, step_balance m op id d, run_balance (step m op).0 ops id (step-Distinct m op d))
