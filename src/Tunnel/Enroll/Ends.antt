-- ===== src/Tunnel/Enroll/Ends.antt =====
-- Every call comes to an end.
use edge_caddy.Prelude.{
  ℕ, ◌+◌, ◌-◌, ◌≤◌, true, not, String, str_eq, ltb, ◌==◌, ==_iff, Option, none, some, List, [], ◌∷◌,
  ◌≡◌, refl, ap, if◌then◌else◌, Bool-cases, inl, inr, arith,
}
use edge_caddy.Prelude.Assoc.{lookup}
use edge_caddy.Tunnel.Enroll.{
  TokenRow, NodeRow, Phase, read_baseline, check_known, check_drained, peek_token, check_spec,
  upsert, sign, consume_token, done, Hello, Tables, known_row, is_node_drained, peek, peeked_row,
  advance, is_done, Answer, replied, not_done, done_unheard, ended, turn,
}
use edge_caddy.Tunnel.Enroll.Moves.{Move, go_on, issue, set_drained, delete_node, System, move, run}

-- How many turns a call in the phase can still have.
abbrev pub rank : Phase → ℕ
rank read_baseline = 6
rank peek_token = 5
rank (check_spec _) = 4
rank (upsert _) = 3
rank (sign _) = 2
rank (consume_token _) = 1
rank (check_known _) = 2
rank (check_drained _) = 1
rank (done _) = 0

module _ (hash : String → String) where
  rank-advance :
      (now : ℕ) (hello : Hello) (phase : Phase) (t : Tables)
      → rank (advance hash now hello phase t).1 ≤ rank phase - 1
  unfolding advance peek
  rank-advance now hello read_baseline t = elim (Bool-cases (not (str_eq hello.cert_cn ""))) [
    | inl cert ↦ rw cert (omega arith)
    | inr no_cert ↦ elim (Bool-cases (str_eq hello.token "")) [
      | inl e ↦ rw (no_cert, e) (omega arith)
      | inr e ↦ rw (no_cert, e) (omega arith)
    ]
  ]
  rank-advance now hello (check_known cn) t = by_row (lookup cn t.nodes)
    where
      by_row : (o : Option NodeRow) → rank (known_row cn o t).1 ≤ 1
      by_row none = omega arith
      by_row (some row) = omega arith
  rank-advance now hello (check_drained cn) t = elim (Bool-cases (is_node_drained cn t.nodes)) [
    | inl e ↦ rw e (omega arith)
    | inr e ↦ rw e (omega arith)
  ]
  rank-advance now hello peek_token t = by_row (lookup (hash hello.token) t.tokens)
    where
      by_row : (o : Option TokenRow) → rank (peeked_row hash now hello o t).1 ≤ 4
      by_row none = omega arith
      by_row (some row) = elim (Bool-cases row.is_used) [
        | inl e ↦ simp e (omega arith)
        | inr e ↦ elim (Bool-cases (ltb row.expires_at now)) [
          | inl f ↦ simp (e, f) (omega arith)
          | inr f ↦ simp (e, f) (omega arith)
        ]
      ]
  rank-advance now hello (check_spec spec) t =
      elim (Bool-cases (is_node_drained spec.node_id t.nodes)) [
        | inl e ↦ rw e (omega arith)
        | inr e ↦ rw e (omega arith)
      ]
  rank-advance now hello (upsert spec) t = omega arith
  rank-advance now hello (sign spec) t = omega arith
  rank-advance now hello (consume_token spec) t = omega arith
  rank-advance now hello (done o) t = omega arith

  rank-ended : (phase : Phase) → rank (ended hash phase) ≡ 0
  rank-ended read_baseline = refl
  rank-ended (check_known _) = refl
  rank-ended (check_drained _) = refl
  rank-ended peek_token = refl
  rank-ended (check_spec _) = refl
  rank-ended (upsert _) = refl
  rank-ended (sign _) = refl
  rank-ended (consume_token _) = refl
  rank-ended (done _) = refl

  rank-turn :
      (answer : Answer) (now : ℕ) (hello : Hello) (phase : Phase) (t : Tables)
      → rank (turn hash answer now hello phase t).1 ≤ rank phase - 1
  unfolding turn
  rank-turn replied now hello phase t = rank-advance now hello phase t
  rank-turn not_done now hello phase t = omega (arith, rank-ended phase)
  rank-turn done_unheard now hello phase t = omega (arith, rank-ended phase)

  -- How many turns a call has in a move, and in a run.
  abbrev pub turn_of : ℕ → Move → ℕ
  turn_of who (go_on i answer now) = if who == i then 1 else 0
  turn_of who _ = 0

  abbrev pub turns : ℕ → List Move → ℕ
  turns who [] = 0
  turns who (m ∷ ms) = turn_of who m + turns who ms

  rank-move :
      (who : ℕ) (m : Move) (s : System)
      → rank ((move hash m s).calls who).1 ≤ rank (s.calls who).1 - turn_of who m
  unfolding move
  rank-move who (go_on i answer now) s = elim (Bool-cases (who == i)) [
    | inl same ↦
        let moved = rank-turn answer now (s.calls i).0 (s.calls i).1 s.tables in
        let is_i : rank (s.calls who).1 ≡ rank (s.calls i).1 =
          ap (λ k. rank (s.calls k).1) ((==_iff who i).0 same) in
        rw same (omega (arith, moved, is_i))
    | inr apart ↦ rw apart (omega arith)
  ]
  rank-move who (issue now plain spec) s = omega arith
  rank-move who (set_drained id b) s = omega arith
  rank-move who (delete_node id) s = omega arith

  rank-run :
      (who : ℕ) (ms : List Move) (s : System)
      → rank ((run hash ms s).calls who).1 ≤ rank (s.calls who).1 - turns who ms
  unfolding run
  rank-run who [] s = omega arith
  rank-run who (m ∷ ms) s = omega (arith, rank-run who ms (move hash m s), rank-move who m s)

  rank_zero : (phase : Phase) → rank phase ≤ 0 → is_done hash phase ≡ true
  rank_zero (done o) h = refl
  rank_zero read_baseline h = absurd (omega (arith, h))
  rank_zero peek_token h = absurd (omega (arith, h))
  rank_zero (check_spec _) h = absurd (omega (arith, h))
  rank_zero (upsert _) h = absurd (omega (arith, h))
  rank_zero (sign _) h = absurd (omega (arith, h))
  rank_zero (consume_token _) h = absurd (omega (arith, h))
  rank_zero (check_known _) h = absurd (omega (arith, h))
  rank_zero (check_drained _) h = absurd (omega (arith, h))

  -- However calls interleave and whatever errors there are: a call that has just begun has ended after
  -- six turns of its own.
  pub calls_end :
      (who : ℕ) (ms : List Move) (s : System)
      → (s.calls who).1 ≡ read_baseline
      → 6 ≤ turns who ms
      → is_done hash ((run hash ms s).calls who).1 ≡ true
  calls_end who ms s begun enough =
      let start : rank (s.calls who).1 ≡ 6 = ap rank begun in
      rank_zero _ (omega (arith, rank-run who ms s, start, enough))
