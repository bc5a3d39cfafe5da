-- ===== src/Health/Observe/Windows.antt =====
-- What the entries of the monitor keep: bounded series, positive gaps, and a status with hysteresis.
use edge_caddy.Prelude.{
  ℕ, ◌+◌, ◌-◌, ◌/◌, ◌≤◌, ◌<◌, ◌≡◌, refl, List, [], ◌∷◌, ◌++◌, arith, ltb, Bool-cases, ◌⊎◌, inl, inr,
  ◌==◌, length, length-keep_last, All, All-append, All-drop, if◌then◌else◌, not, ◌&&◌,
}
use edge_caddy.Health.State.{
  Status, NodeState, Heartbeat, Monitor, warn_exit_margin, cpu_series_len, gap_samples,
}
use edge_caddy.Health.Observe.{observe_node, push_gap, classify, same_status}

abbrev pub IsPositive : ℕ → Type 0
IsPositive n = 0 < n

-- What every entry of the map satisfies.
pub record IsWellFormed (st : NodeState) : Type 0 where
  pub cpu_bounded : length st.cpu ≤ cpu_series_len
  pub gaps_bounded : length st.gaps ≤ gap_samples
  pub gaps_positive : All IsPositive st.gaps

push_gap-bounded :
    (now : ℕ) (st : NodeState)
    → length st.gaps ≤ gap_samples
    → length (push_gap now st) ≤ gap_samples
unfolding push_gap
push_gap-bounded now st h =
    ground (arith, length-keep_last gap_samples (st.gaps ++ (now - st.prev_hb_at) ∷ []))

push_gap-IsPositive :
    (now : ℕ) (st : NodeState) → All IsPositive st.gaps → All IsPositive (push_gap now st)
unfolding push_gap
push_gap-IsPositive now st h =
    elim (Bool-cases (not (st.prev_hb_at == 0) && ltb st.prev_hb_at now)) [
      | inl measured ↦ rw measured (
          All-drop IsPositive _ (st.gaps ++ (now - st.prev_hb_at) ∷ [])
            (All-append IsPositive st.gaps _ h (ground arith, tt)))
      | inr skipped ↦ rw skipped h
    ]

-- A heartbeat keeps the entry well formed: at most twelve points of load, at most five measured
-- gaps, and each gap greater than zero, whatever the entry's clock readings were.
pub observe_node-IsWellFormed :
    (m : Monitor) (hb : Heartbeat) (now clock : ℕ) (st : NodeState)
    → IsWellFormed st
    → IsWellFormed (observe_node m hb now clock st)
unfolding observe_node
observe_node-IsWellFormed m hb now clock st h = record {
  cpu_bounded =
      omega (arith, length-keep_last cpu_series_len (st.cpu ++ ((hb.cpu + 500) / 1000) ∷ []));
  gaps_bounded = push_gap-bounded now st h.gaps_bounded;
  gaps_positive = push_gap-IsPositive now st h.gaps_positive;
}

-- The number of times that the health changes over the heartbeats, from a given one.
unfoldable pub changes : Monitor → Status → List Heartbeat → ℕ
changes m prev [] = 0
changes m prev (hb ∷ rest) =
    let next = classify m hb prev in (if same_status next prev then 0 else 1) + changes m next rest

-- A load at most five per cent below the limit, or above it.
abbrev pub IsNearLimit : Monitor → Heartbeat → Type 0
IsNearLimit m hb = m.warn_cpu_pct ≤ hb.cpu + warn_exit_margin

classify_warn :
    (m : Monitor) (hb : Heartbeat) → IsNearLimit m hb → classify m hb Status.warn ≡ Status.warn
unfolding classify
classify_warn m hb h = ground arith

classify_ok :
    (m : Monitor) (hb : Heartbeat)
    → (classify m hb Status.ok ≡ Status.ok) ⊎ (classify m hb Status.ok ≡ Status.warn)
unfolding classify
classify_ok m hb = ground arith

changes_warn :
    (m : Monitor) (hbs : List Heartbeat) → All (IsNearLimit m) hbs → changes m Status.warn hbs ≡ 0
unfolding changes
changes_warn m [] h = refl
changes_warn m (hb ∷ hbs) h = rw (classify_warn m hb h.0) (omega (arith, changes_warn m hbs h.1))

-- While the processor load stays at or above five per cent below the limit, a node that was healthy
-- changes its health at most once, however the loads vary.
pub changes_once :
    (m : Monitor) (hbs : List Heartbeat) → All (IsNearLimit m) hbs → changes m Status.ok hbs ≤ 1
unfolding changes
changes_once m [] h = omega arith
changes_once m (hb ∷ hbs) h = elim (classify_ok m hb) [
  | inl same ↦ rw same (omega (arith, changes_once m hbs h.1))
  | inr worse ↦ rw worse (omega (arith, changes_warn m hbs h.1))
]
