-- ===== src/Agent/Drain/Waits.antt =====
-- The wait ends, and says how many connections are left.
use edge_caddy.Prelude.{
  ℕ, zero, suc, ◌+◌, ◌*◌, ◌/◌, ◌≤◌, ◌<◌, Bool, true, false, ◌==◌, ==_iff, leb, le→leb, Option, some,
  ◌≡◌, refl, sym, subst, Bool-cases, inl, inr, arith,
}
use edge_caddy.Agent.Drain.{Drained, World, wait_loop, timeout_of, poll_of, counts_of, wait_drained}
use native.Mathlib.Nat.{lt-mul-div-succ}

-- A count is made when the time of a poll has passed since the one before it.
abbrev pub IsPolled : World → ℕ → ℕ → Type 0
IsPolled w now poll = (now ≤ w.time_of 0) × ((i : ℕ) → w.time_of i + poll ≤ w.time_of (suc i))

-- The answer says what a count found, and that the node is drained exactly if that is nothing.
abbrev pub IsTrue : World → Option Drained → Type 0
IsTrue w o =
    (d : Drained) × ((o ≡ some d)
      × ((d.is_drained ≡ (d.remaining == 0)) × ((i : ℕ) × (w.count i ≡ d.remaining))))

module _ (w : World) (now poll timeout : ℕ) (polled : IsPolled w now poll) where
  time_late : (i : ℕ) → now + i * poll ≤ w.time_of i
  time_late zero = omega (arith, polled.0)
  time_late (suc i) = omega (arith, time_late i, polled.1 i)

  ends_by : (j : ℕ) → timeout ≤ j * poll → leb (now + timeout) (w.time_of j) ≡ true
  ends_by j enough = le→leb (now + timeout) (w.time_of j) (omega (arith, time_late j, enough))

  still :
      (j : ℕ)
      → (w.count j == 0) ≡ false
      → IsTrue w (some (record { is_drained = false; remaining = w.count j }))
  still j busy =
      (record { is_drained = false; remaining = w.count j }, (refl, (sym busy, (j, refl))))

  wait_loop-turn :
      (n i : ℕ)
      → (leb (now + timeout) (w.time_of i) ≡ false
          → IsTrue w (wait_loop w (now + timeout) n (suc i)))
      → IsTrue w (wait_loop w (now + timeout) (suc n) i)
  unfolding wait_loop
  wait_loop-turn n i next = elim (Bool-cases (w.count i == 0)) [
    | inl empty ↦ rw empty (
      record { is_drained = true; remaining = 0 },
      (refl, (refl, (i, (==_iff (w.count i) 0).0 empty))),
    )
    | inr busy ↦ elim (Bool-cases (leb (now + timeout) (w.time_of i))) [
      | inl over ↦ rw (busy, over) (still i busy)
      | inr before ↦ elim (Bool-cases (w.is_cancelled i)) [
        | inl ended ↦ rw (busy, before, ended) (still i busy)
        | inr goes_on ↦ rw (busy, before, goes_on) (next before)
      ]
    ]
  ]

  both : {A : Type 0} (b : Bool) → b ≡ true → b ≡ false → A
  both b over before = cc

  wait_loop-IsTrue :
      (n i : ℕ) → timeout ≤ (i + n) * poll → IsTrue w (wait_loop w (now + timeout) (suc n) i)
  wait_loop-IsTrue zero i enough =
      wait_loop-turn zero i λ before.
        both (leb (now + timeout) (w.time_of i)) (ends_by i (omega (arith, enough))) before
  wait_loop-IsTrue (suc n) i enough =
      wait_loop-turn (suc n) i λ before. wait_loop-IsTrue n (suc i) (omega (arith, enough))

poll_of_pos : (poll : ℕ) → 0 < poll_of poll
poll_of_pos zero = omega arith
poll_of_pos (suc n) = grind arith

-- If each count is made when at least one poll has passed since the one before, then the wait comes to
-- an end: within as many counts as polls fit into the timeout, and two more, it answers with a number
-- of connections that a count found, and says that the node is drained exactly if that is 0. Whether the
-- context is cancelled meanwhile makes no difference to this.
pub wait_drained-IsTrue :
    (w : World) (now timeout poll : ℕ)
    → IsPolled w now (poll_of poll)
    → IsTrue w (wait_drained w now timeout poll)
unfolding wait_drained
wait_drained-IsTrue w now timeout poll polled =
    let t = timeout_of timeout in
    let q = t / poll_of poll in
    let enough = lt-mul-div-succ t (poll_of_pos poll) in
    let counts : suc (q + 1) ≡ counts_of t (poll_of poll) = omega arith in
    subst (λ c. IsTrue w (wait_loop w (now + t) c 0)) counts
      (wait_loop-IsTrue w now (poll_of poll) t polled (q + 1) 0 (omega (arith, enough)))
