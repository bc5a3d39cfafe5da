-- ===== src/Health/Tick/Silence.antt =====
-- How long a node may be silent before `tickAt` marks it down, with ticks at a fixed period.
use edge_caddy.Prelude.{
  ℕ, zero, suc, ◌+◌, ◌*◌, ◌≤◌, ◌<◌, ◌≡◌, refl, true, false, [], ◌∷◌, arith, leb, if◌then◌else◌, max,
  Bool-cases, String, Option, none, some, str_eq, inl, inr, ap, sym, ◌∙◌, leb→le, le→leb,
}
use edge_caddy.Prelude.Assoc.{Assoc, lookup}
use native.Mathlib.Nat.{lt_of_mul-lt-mul_left}
use edge_caddy.Health.State.{NodeState, Monitor}
use edge_caddy.Health.Tick.{deadline, longest_deadline, stale_after, tick_node}

-- The ticks at `start`, `start + interval` and so on, `n` of them, on one entry.
unfoldable pub ticks : Monitor → ℕ → ℕ → NodeState → NodeState
ticks m zero start st = st
ticks m (suc n) start st = ticks m n (start + m.interval) (tick_node m start st).0

-- From here on a tick counts as a miss: the later of the last sample and the last handshake, and
-- the deadline.
abbrev pub overdue_from : Monitor → NodeState → ℕ
overdue_from m st = max st.last.at st.alive_at + deadline m st.gaps

-- How many of the `n` ticks from `start` on are at `from` or later.
abbrev pub late_ticks : ℕ → ℕ → ℕ → ℕ → ℕ
late_ticks interval from zero start = 0
late_ticks interval from (suc n) start =
    (if leb from start then 1 else 0) + late_ticks interval from n (start + interval)

-- A node that is watched: seen, not yet reported, and its misses below the threshold.
pub record IsWatched (m : Monitor) (st : NodeState) : Type 0 where
  pub seen : st.seen ≡ true
  pub quiet : st.down_sent ≡ false
  pub below : st.misses < m.threshold

tick_early :
    (m : Monitor) (now : ℕ) (st : NodeState)
    → now < overdue_from m st
    → tick_node m now st ≡ (st, false)
unfolding tick_node
tick_early m now st h = ground arith

tick_late :
    (m : Monitor) (now : ℕ) (st : NodeState)
    → IsWatched m st
    → overdue_from m st ≤ now
    → st.misses + 1 < m.threshold
    → tick_node m now st ≡ (record st { misses = st.misses + 1 }, false)
unfolding tick_node
tick_late m now st w h k = ground arith

tick_last :
    (m : Monitor) (now : ℕ) (st : NodeState)
    → IsWatched m st
    → overdue_from m st ≤ now
    → m.threshold ≤ st.misses + 1
    → tick_node m now st ≡ (record st { misses = st.misses + 1; down_sent = true }, true)
unfolding tick_node
tick_last m now st w h k = ground arith

tick_reported :
    (m : Monitor) (now : ℕ) (st : NodeState)
    → st.down_sent ≡ true
    → tick_node m now st ≡ (st, false)
unfolding tick_node
tick_reported m now st w = ground arith

ticks_reported :
    (m : Monitor) (n start : ℕ) (st : NodeState)
    → st.down_sent ≡ true
    → (ticks m n start st).down_sent ≡ true
unfolding ticks
ticks_reported m zero start st w = w
ticks_reported m (suc n) start st w =
    rw (tick_reported m start st w, ticks) (ticks_reported m n (start + m.interval) st w)

-- A watched node is marked down by a run of ticks exactly when its misses and the late ticks among
-- them reach the threshold.
pub ticks_exact :
    (m : Monitor) (n start : ℕ) (st : NodeState)
    → IsWatched m st
    → (ticks m n start st).down_sent
      ≡ leb m.threshold (st.misses + late_ticks m.interval (overdue_from m st) n start)
unfolding ticks
ticks_exact m zero start st w = ground arith
ticks_exact m (suc n) start st w = elim (Bool-cases (leb (overdue_from m st) start)) [
  | inl late ↦ elim (Bool-cases (leb m.threshold (st.misses + 1))) [
    | inl last ↦
        rw (tick_last m start st w (leb→le _ _ late) (leb→le _ _ last), ticks)
          (rw late (
            ticks_reported m n (start + m.interval) _ refl
            ∙ sym (le→leb _ _ (omega (arith, leb→le _ _ last)))))
    | inr more ↦
        rw (tick_late m start st w (leb→le _ _ late) (ground arith), ticks)
          (rw late (
            ticks_exact m n (start + m.interval) (record st { misses = st.misses + 1 })
              (record { seen = w.seen; quiet = w.quiet; below = ground arith })
            ∙ ap (λ r. leb m.threshold r) (omega arith)))
  ]
  | inr early ↦
      rw (tick_early m start st (ground arith), ticks)
        (rw early
          (ticks_exact m n (start + m.interval) st w ∙ ap (λ r. leb m.threshold r) (omega arith)))
]

-- All ticks from a late one on are late.
late_ticks_all : (interval from n start : ℕ) → from ≤ start → late_ticks interval from n start ≡ n
late_ticks_all interval from zero start h = refl
late_ticks_all interval from (suc n) start h =
    rw (le→leb _ _ h)
      (omega (arith, late_ticks_all interval from n (start + interval) (omega arith)))

mul-le-cancel : (i a b : ℕ) → 0 < i → i * a ≤ i * b → a ≤ b
mul-le-cancel i a b pos h = omega (arith, lt_of_mul-lt-mul_left i {m = a} {n = suc b} (omega arith))

-- Ticks that reach `k` periods past `from`, the first of them not after `from`, include `k` late ones.
late_ticks_enough :
    (interval from k n start : ℕ)
    → 0 < interval
    → start ≤ from
    → from + interval * k ≤ start + interval * n
    → k ≤ late_ticks interval from n start
late_ticks_enough interval from k zero start pos h reach =
    mul-le-cancel interval k 0 pos (omega arith)
late_ticks_enough interval from k (suc n) start pos h reach =
    elim (Bool-cases (leb (start + interval) from)) [
      | inl more ↦ omega (
        arith,
        late_ticks_enough interval from k n (start + interval) pos (leb→le _ _ more) (omega arith),
      )
      | inr last ↦ elim (Bool-cases (leb from start)) [
        | inl at_once ↦ rw at_once (
            omega (
              arith,
              late_ticks_all interval from n (start + interval) (omega (arith, leb→le _ _ at_once)),
              mul-le-cancel interval k (suc n) pos (omega (arith, leb→le _ _ at_once)),
            ))
        | inr soon ↦ rw soon (
            omega (
              arith,
              late_ticks_all interval from n (start + interval) (ground arith),
              lt_of_mul-lt-mul_left interval {m = k} {n = suc n} (ground arith),
            ))
      ]
    ]

-- Ticks that stay below `k` periods past `from` include fewer than `k` late ones.
late_ticks_few :
    (interval from k n start : ℕ)
    → 0 < k
    → start + interval * n < from + interval * k
    → late_ticks interval from n start < k
late_ticks_few interval from k zero start some_k h = some_k
late_ticks_few interval from k (suc n) start some_k h = elim (Bool-cases (leb from start)) [
  | inl late ↦ rw late (
      omega (
        arith,
        late_ticks_all interval from n (start + interval) (omega (arith, leb→le _ _ late)),
        lt_of_mul-lt-mul_left interval {m = suc n} {n = k} (omega (arith, leb→le _ _ late)),
      ))
  | inr early ↦
      rw early
        (omega (arith, late_ticks_few interval from k n (start + interval) some_k (omega arith)))
]

-- Where the period of the ticks is not zero, a watched node is down after ticks that run, from one
-- at or before its deadline, until `threshold` periods past the deadline.
pub down_in_time :
    (m : Monitor) (n start : ℕ) (st : NodeState)
    → 0 < m.interval
    → IsWatched m st
    → start ≤ overdue_from m st
    → overdue_from m st + m.interval * m.threshold ≤ start + m.interval * n
    → (ticks m n start st).down_sent ≡ true
down_in_time m n start st pos w h reach =
    ticks_exact m n start st w
    ∙ le→leb _ _ (
        omega
          (arith, late_ticks_enough m.interval (overdue_from m st) m.threshold n start pos h reach))

-- A watched node with no miss yet is not down while the ticks so far, the period after the last one
-- included, end less than `threshold` periods past its deadline.
pub not_down_early :
    (m : Monitor) (n start : ℕ) (st : NodeState)
    → IsWatched m st
    → st.misses ≡ 0
    → start + m.interval * n < overdue_from m st + m.interval * m.threshold
    → (ticks m n start st).down_sent ≡ false
not_down_early m n start st w fresh h =
    ticks_exact m n start st w
    ∙ ground (
      arith,
      w.below,
      late_ticks_few m.interval (overdue_from m st) m.threshold n start (omega (arith, w.below)) h,
    )

longest_deadline_ge : (m : Monitor) (d : ℕ) (ns : Assoc NodeState) → d ≤ longest_deadline m d ns
unfolding longest_deadline
longest_deadline_ge m d [] = omega arith
longest_deadline_ge m d ((j, st) ∷ ns) =
    omega (arith, longest_deadline_ge m (max d (deadline m st.gaps)) ns)

abbrev deadline_of : Monitor → Option NodeState → ℕ
deadline_of m none = 0
deadline_of m (some st) = deadline m st.gaps

longest_deadline_covers :
    (m : Monitor) (d : ℕ) (id : String) (ns : Assoc NodeState) (st : NodeState)
    → lookup id ns ≡ some st
    → deadline m st.gaps ≤ longest_deadline m d ns
unfolding longest_deadline lookup
longest_deadline_covers m d id [] st h = cc
longest_deadline_covers m d id ((j, s) ∷ ns) st h = elim (Bool-cases (str_eq j id)) [
  | inl same ↦ omega (
    arith,
    longest_deadline_ge m (max d (deadline m s.gaps)) ns,
    ap (deadline_of m) (rw same at h),
  )
  | inr other ↦ longest_deadline_covers m (max d (deadline m s.gaps)) id ns st (rw other at h)
]

-- Where the period of the ticks is not zero, a node of the map that is watched is down once the
-- ticks have run, from one at or before its deadline, until its last sign of life is `StaleAfter`
-- old: no sample that old is of a node still up.
pub stale_is_down :
    (m : Monitor) (id : String) (st : NodeState) (n start : ℕ)
    → lookup id m.nodes ≡ some st
    → 0 < m.interval
    → IsWatched m st
    → start ≤ overdue_from m st
    → max st.last.at st.alive_at + stale_after m ≤ start + m.interval * n
    → (ticks m n start st).down_sent ≡ true
unfolding stale_after
stale_is_down m id st n start known pos w h reach =
    down_in_time m n start st pos w h
      (omega (arith, longest_deadline_covers m (deadline m []) id m.nodes st known))
