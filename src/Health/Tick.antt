-- ===== src/Health/Tick.antt =====
-- The watch on silent nodes: `gapLocked`, `deadlineLocked`, `StaleAfter` and `tickAt` of health.go.
pub mod Silence
use edge_caddy.Prelude.{
  ℕ, ◌+◌, ◌*◌, ◌/◌, Bool, true, false, not, ◌||◌, String, List, [], ◌∷◌, ltb, leb, if◌then◌else◌,
  length, get_or, max,
}
use edge_caddy.Prelude.Assoc.{Assoc}
use edge_caddy.Health.State.{NodeState, Monitor}

-- `slices.Sort`
unfoldable pub insert_sorted : ℕ → List ℕ → List ℕ
insert_sorted x [] = x ∷ []
insert_sorted x (y ∷ ys) = if leb x y then x ∷ y ∷ ys else y ∷ insert_sorted x ys

unfoldable pub sort : List ℕ → List ℕ
unfolding insert_sorted
sort [] = []
sort (x ∷ xs) = insert_sorted x (sort xs)

-- `gapLocked`: the median of the last gaps, or what is assumed where none was measured.
unfoldable pub gap : Monitor → List ℕ → ℕ
unfolding sort
gap m [] = m.assumed_heartbeat
gap m (g ∷ gs) = let sorted = sort (g ∷ gs) in get_or sorted (length sorted / 2) 0

-- `deadlineLocked`
unfoldable pub deadline : Monitor → List ℕ → ℕ
deadline m gaps = max m.interval (gap m gaps)

-- the loop of `StaleAfter`
unfoldable pub longest_deadline : Monitor → ℕ → Assoc NodeState → ℕ
longest_deadline m d [] = d
longest_deadline m d ((_, st) ∷ rest) = longest_deadline m (max d (deadline m st.gaps)) rest

unfoldable pub stale_after : Monitor → ℕ
unfolding longest_deadline
stale_after m = longest_deadline m (deadline m []) m.nodes + m.interval * m.threshold

-- One turn of the loop of `tickAt`: the entry, and whether the node is to be marked down.
unfoldable pub tick_node : Monitor → ℕ → NodeState → NodeState × Bool
tick_node m now st =
    let d = deadline m st.gaps in
    if not st.seen || st.down_sent
    then (st, false)
    else if ltb now (st.last.at + d) || ltb now (st.alive_at + d)
    then (st, false)
    else if leb m.threshold (st.misses + 1)
    then (record st { misses = st.misses + 1; down_sent = true }, true)
    else (record st { misses = st.misses + 1 }, false)

-- The loop: the entries and the nodes to be marked down, in the order of the visit.
unfoldable pub tick_nodes : Monitor → ℕ → Assoc NodeState → Assoc NodeState × List String
tick_nodes m now [] = ([], [])
tick_nodes m now ((id, st) ∷ rest) =
    let (st', is_late) = tick_node m now st in
    let (rest', late) = tick_nodes m now rest in
    ((id, st') ∷ rest', if is_late then id ∷ late else late)

-- `tickAt` up to its calls of `markDown`.
unfoldable pub tick_at : Monitor → ℕ → Monitor × List String
unfolding tick_nodes
tick_at m now = let (nodes, late) = tick_nodes m now m.nodes in (record m { nodes = nodes }, late)
