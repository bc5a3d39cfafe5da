-- ===== src/Tunnel/Enroll/Exact.antt =====
-- A token lets one call in at most, and is used up by that call or by one that does not hear of it.
use edge_caddy.Prelude.{
  ℕ, ◌+◌, ◌≤◌, Bool, true, false, not, ◌&&◌, String, str_eq, ltb, Option, none, some, List, [], ◌∷◌,
  ◌≡◌, refl, sym, ap, ◌∙◌, if◌then◌else◌, Bool-cases, inl, inr, arith,
}
use edge_caddy.Prelude.Assoc.{Assoc, lookup, insert, lookup-insert, lookup_same}
use edge_caddy.Tunnel.Enroll.{
  NodeSpec, TokenRow, NodeRow, Phase, read_baseline, check_known, check_drained, peek_token,
  check_spec, upsert, sign, consume_token, done, Hello, Tables, is_node_drained, issue_token,
  known_row, peek, peeked_row, consume, consume_row, after_consume, advance, Answer, replied,
  not_done, done_unheard, unheard, ended, turn, enroll_token_ttl,
}
use edge_caddy.Tunnel.Enroll.Moves.{
  Move, go_on, issue, set_drained, delete_node, System, to_count, used_row, used_count, win, wins,
  wins_of, losses, losses_of, spent, run, move,
}

module _ (hash : String → String) where
  -- A step leaves the token as it is and lets nobody in by it, or uses it up and lets the call in.
  abbrev Counts : String → Hello → Phase → Assoc TokenRow → Assoc TokenRow → Phase → Type 0
  Counts key hello before old new after =
      used_count key new ≡ used_count key old + win hash key hello before after

  consume_row-Counts :
      (key : String) (now : ℕ) (hello : Hello) (spec : NodeSpec) (t : Tables) (o : Option TokenRow)
      → lookup (hash hello.token) t.tokens ≡ o
      → Counts key hello
          (consume_token spec)
          t.tokens
          (after_consume hash spec t (consume_row hash now (hash hello.token) o t.tokens)).0.tokens
          (after_consume hash spec t (consume_row hash now (hash hello.token) o t.tokens)).1
  consume_row-Counts key now hello spec t none found = omega arith
  consume_row-Counts key now hello spec t (some row) found =
      by_test (not row.is_used && ltb now row.expires_at) refl
    where
      h : String
      h = hash hello.token

      fresh : not row.is_used && ltb now row.expires_at ≡ true → row.is_used ≡ false
      fresh e = unused row.is_used _ e
        where
          unused : (u b : Bool) → (not u && b) ≡ true → u ≡ false
          unused true b x = sym x
          unused false b x = refl

      written :
          (same : Bool)
          → str_eq h key ≡ same
          → row.is_used ≡ false
          → used_count key (insert h (record row { is_used = true }) t.tokens)
            ≡ used_count key t.tokens + to_count same
      written true e unused =
          rw (lookup-insert h key (record row { is_used = true }) t.tokens, e)
            (rw (sym (lookup_same h key t.tokens e) ∙ found) (simp unused refl))
      written false e unused =
          rw (lookup-insert h key (record row { is_used = true }) t.tokens, e) (omega arith)

      by_test :
          (b : Bool)
          → not row.is_used && ltb now row.expires_at ≡ b
          → Counts key hello
              (consume_token spec)
              t.tokens
              (after_consume hash spec t (
                if b
                then (insert h (record row { is_used = true }) t.tokens, true)
                else (t.tokens, false))).0.tokens
              (after_consume hash spec t (
                if b
                then (insert h (record row { is_used = true }) t.tokens, true)
                else (t.tokens, false))).1
      by_test true e = written (str_eq h key) refl (fresh e)
      by_test false e = omega arith

  advance-Counts :
      (key : String) (now : ℕ) (hello : Hello) (phase : Phase) (t : Tables)
      → Counts key hello phase t.tokens
          (advance hash now hello phase t).0.tokens
          (advance hash now hello phase t).1
  unfolding advance consume peek
  advance-Counts key now hello (consume_token spec) t =
      consume_row-Counts key now hello spec t (lookup (hash hello.token) t.tokens) refl
  advance-Counts key now hello (upsert spec) t = omega arith
  advance-Counts key now hello (sign spec) t = omega arith
  advance-Counts key now hello (done o) t = omega arith
  advance-Counts key now hello read_baseline t = elim (Bool-cases (not (str_eq hello.cert_cn ""))) [
    | inl cert ↦ rw cert (omega arith)
    | inr no_cert ↦ elim (Bool-cases (str_eq hello.token "")) [
      | inl e ↦ rw (no_cert, e) (omega arith)
      | inr e ↦ rw (no_cert, e) (omega arith)
    ]
  ]
  advance-Counts key now hello (check_known cn) t = by_row (lookup cn t.nodes)
    where
      by_row :
          (o : Option NodeRow)
          → Counts key hello
              (check_known cn)
              t.tokens
              (known_row cn o t).0.tokens
              (known_row cn o t).1
      by_row none = omega arith
      by_row (some row) = omega arith
  advance-Counts key now hello (check_drained cn) t =
      elim (Bool-cases (is_node_drained cn t.nodes)) [
        | inl e ↦ rw e (omega arith)
        | inr e ↦ rw e (omega arith)
      ]
  advance-Counts key now hello (check_spec spec) t =
      elim (Bool-cases (is_node_drained spec.node_id t.nodes)) [
        | inl e ↦ rw e (omega arith)
        | inr e ↦ rw e (omega arith)
      ]
  advance-Counts key now hello peek_token t = by_row (lookup (hash hello.token) t.tokens)
    where
      by_row :
          (o : Option TokenRow)
          → Counts key hello peek_token t.tokens
              (peeked_row hash now hello o t).0.tokens
              (peeked_row hash now hello o t).1
      by_row none = omega arith
      by_row (some row) = elim (Bool-cases row.is_used) [
        | inl e ↦ simp e (omega arith)
        | inr e ↦ elim (Bool-cases (ltb row.expires_at now)) [
          | inl f ↦ simp (e, f) (omega arith)
          | inr f ↦ simp (e, f) (omega arith)
        ]
      ]

  abbrev lost_in : String → Answer → ℕ → Hello → Phase → Tables → ℕ
  lost_in key done_unheard now hello phase t = spent hash key now hello phase t
  lost_in key _ now hello phase t = 0

  win-ended :
      (key : String) (hello : Hello) (phase : Phase)
      → win hash key hello phase (ended hash phase) ≡ 0
  win-ended key hello read_baseline = refl
  win-ended key hello (check_known _) = refl
  win-ended key hello (check_drained _) = refl
  win-ended key hello peek_token = refl
  win-ended key hello (check_spec _) = refl
  win-ended key hello (upsert _) = refl
  win-ended key hello (sign _) = refl
  win-ended key hello (consume_token _) = refl
  win-ended key hello (done _) = refl

  unheard-spent :
      (key : String) (now : ℕ) (hello : Hello) (phase : Phase) (t : Tables)
      → used_count key (unheard hash now hello phase t).tokens
        ≡ used_count key t.tokens + spent hash key now hello phase t
  unfolding unheard advance
  unheard-spent key now hello (consume_token spec) t =
      advance-Counts key now hello (consume_token spec) t
  unheard-spent key now hello read_baseline t = omega arith
  unheard-spent key now hello (check_known _) t = omega arith
  unheard-spent key now hello (check_drained _) t = omega arith
  unheard-spent key now hello peek_token t = omega arith
  unheard-spent key now hello (check_spec _) t = omega arith
  unheard-spent key now hello (upsert _) t = omega arith
  unheard-spent key now hello (sign _) t = omega arith
  unheard-spent key now hello (done _) t = omega arith

  turn-Counts :
      (key : String) (answer : Answer) (now : ℕ) (hello : Hello) (phase : Phase) (t : Tables)
      → used_count key (turn hash answer now hello phase t).0.tokens
        ≡ used_count key t.tokens
          + win hash key hello phase (turn hash answer now hello phase t).1
          + lost_in key answer now hello phase t
  unfolding turn
  turn-Counts key replied now hello phase t = omega (arith, advance-Counts key now hello phase t)
  turn-Counts key not_done now hello phase t = omega (arith, win-ended key hello phase)
  turn-Counts key done_unheard now hello phase t =
      omega (arith, win-ended key hello phase, unheard-spent key now hello phase t)

  issue_token-used_count :
      (key : String) (now : ℕ) (plain : String) (spec : NodeSpec) (tokens : Assoc TokenRow)
      → used_count key (issue_token hash now plain spec tokens) ≡ used_count key tokens
  unfolding issue_token
  issue_token-used_count key now plain spec tokens = by_row (lookup (hash plain) tokens) refl
    where
      new : TokenRow
      new = record { spec = spec; is_used = false; expires_at = now + enroll_token_ttl }

      written :
          (same : Bool)
          → str_eq (hash plain) key ≡ same
          → lookup (hash plain) tokens ≡ none
          → used_count key (insert (hash plain) new tokens) ≡ used_count key tokens
      written true e free =
          rw (lookup-insert (hash plain) key new tokens, e)
            (sym (ap used_row (sym (lookup_same (hash plain) key tokens e) ∙ free)))
      written false e free = rw (lookup-insert (hash plain) key new tokens, e) refl

      by_row :
          (o : Option TokenRow)
          → lookup (hash plain) tokens ≡ o
          → used_count key (elim o [ none ↦ insert (hash plain) new tokens | some row ↦ tokens ])
            ≡ used_count key tokens
      by_row none free = written (str_eq (hash plain) key) refl free
      by_row (some row) taken = refl

  move-used_count :
      (key : String) (m : Move) (s : System)
      → used_count key (move hash m s).tables.tokens
        ≡ used_count key s.tables.tokens + wins_of hash key m s + losses_of hash key m s
  unfolding move
  move-used_count key (go_on who replied now) s =
      turn-Counts key replied now (s.calls who).0 (s.calls who).1 s.tables
  move-used_count key (go_on who not_done now) s =
      turn-Counts key not_done now (s.calls who).0 (s.calls who).1 s.tables
  move-used_count key (go_on who done_unheard now) s =
      turn-Counts key done_unheard now (s.calls who).0 (s.calls who).1 s.tables
  move-used_count key (issue now plain spec) s =
      omega (arith, issue_token-used_count key now plain spec s.tables.tokens)
  move-used_count key (set_drained id b) s = omega arith
  move-used_count key (delete_node id) s = omega arith

  exact :
      (key : String) (ms : List Move) (s : System)
      → used_count key (run hash ms s).tables.tokens
        ≡ used_count key s.tables.tokens + wins hash key ms s + losses hash key ms s
  unfolding run
  exact key [] s = omega arith
  exact key (m ∷ ms) s = omega (arith, exact key ms (move hash m s), move-used_count key m s)

  -- However calls interleave, whichever statements fail or are done without the call hearing of it, and
  -- whatever tokens are issued and nodes are drained or deleted meanwhile: the number, 0 or 1, that says
  -- whether a token is used grows by exactly the number of calls that were accepted by it and of calls
  -- whose statement used it up unheard. So at most one call is ever accepted by a token.
  pub used_count-run :
      (key : String) (ms : List Move) (s : System)
      → (used_count key (run hash ms s).tables.tokens
          ≡ used_count key s.tables.tokens + wins hash key ms s + losses hash key ms s)
        × (wins hash key ms s + losses hash key ms s ≤ 1)
  used_count-run key ms s = (
    exact key ms s,
    omega (arith, exact key ms s, used_row-bound (lookup key (run hash ms s).tables.tokens)),
  )
    where
      used_row-bound : (o : Option TokenRow) → used_row o ≤ 1
      used_row-bound none = omega arith
      used_row-bound (some row) = to_count-bound row.is_used
        where
          to_count-bound : (b : Bool) → to_count b ≤ 1
          to_count-bound true = omega arith
          to_count-bound false = omega arith
