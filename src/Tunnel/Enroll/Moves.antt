-- ===== src/Tunnel/Enroll/Moves.antt =====
-- Runs of calls that interleave with the work of the administrator, and how often they use a token.
use edge_caddy.Prelude.{
  ℕ, ◌+◌, Bool, true, false, not, ◌&&◌, String, str_eq, ◌==◌, Option, none, some, List, [], ◌∷◌,
  if◌then◌else◌,
}
use edge_caddy.Prelude.Assoc.{Assoc, lookup, insert, delete}
use edge_caddy.Tunnel.Enroll.{
  NodeSpec, TokenRow, NodeRow, accepted, Phase, consume_token, done, Hello, Tables, issue_token,
  consume, after_consume, is_done, Answer, done_unheard, turn,
}

-- What happens: a call has a turn, with or without an answer; a token is issued; a node is drained, or not
-- any more; a node is deleted.
pub data Move : Type 0 where
  go_on : ℕ → Answer → ℕ → Move
  issue : ℕ → String → NodeSpec → Move
  set_drained : String → Bool → Move
  delete_node : String → Move

-- The tables, and the calls by their numbers.
pub record System : Type 0 where
  pub tables : Tables
  pub calls : ℕ → Hello × Phase

abbrev pub mark_drained : Bool → String → Option NodeRow → Assoc NodeRow → Assoc NodeRow
mark_drained b id none nodes = nodes
mark_drained b id (some row) nodes = insert id (record row { is_drained = b }) nodes

-- The call has ended by joining with its token.
abbrev pub is_enrolled : Phase → Bool
is_enrolled (done (accepted id fresh)) = fresh
is_enrolled _ = false

abbrev pub to_count : Bool → ℕ
to_count true = 1
to_count false = 0

abbrev pub used_row : Option TokenRow → ℕ
used_row none = 0
used_row (some row) = to_count row.is_used

-- 1 if the token under the hash is used, and else 0.
abbrev pub used_count : String → Assoc TokenRow → ℕ
used_count key tokens = used_row (lookup key tokens)

module _ (hash : String → String) where
  abbrev after_turn : ℕ → System → Hello → Tables × Phase → System
  after_turn who s hello (tables, phase) = record {
    tables = tables;
    calls = λ i. if i == who then (hello, phase) else s.calls i;
  }

  unfoldable pub move : Move → System → System
  unfolding turn issue_token
  move (go_on who answer now) s =
      let (hello, phase) = s.calls who in
      after_turn who s hello (turn hash answer now hello phase s.tables)
  move (issue now plain spec) s = record s {
    tables = record s.tables { tokens = issue_token hash now plain spec s.tables.tokens };
  }
  move (set_drained id b) s = record s {
    tables = record s.tables {
      nodes = mark_drained b id (lookup id s.tables.nodes) s.tables.nodes;
    };
  }
  move (delete_node id) s = record s {
    tables = record s.tables { nodes = delete id s.tables.nodes };
  }

  unfoldable pub run : List Move → System → System
  unfolding move
  run [] s = s
  run (m ∷ ms) s = run ms (move m s)

  -- 1 if a turn lets the call in by the token under the hash, and else 0.
  abbrev pub win : String → Hello → Phase → Phase → ℕ
  win key hello before after =
      to_count (not (is_done hash before) && (is_enrolled after && str_eq (hash hello.token) key))

  -- How many calls a move lets in by the token.
  abbrev pub wins_of : String → Move → System → ℕ
  wins_of key (go_on who answer now) s =
      let (hello, phase) = s.calls who in
      win key hello phase (turn hash answer now hello phase s.tables).1
  wins_of key _ s = 0

  -- 1 if a statement uses the token under the hash up and the call does not hear it, and else 0.
  abbrev pub spent : String → ℕ → Hello → Phase → Tables → ℕ
  spent key now hello (consume_token spec) t =
      win key hello (consume_token spec)
        (after_consume hash spec t (consume hash now hello.token t.tokens)).1
  spent key now hello _ t = 0

  -- How often a move uses the token up for a call that does not hear it.
  abbrev pub losses_of : String → Move → System → ℕ
  losses_of key (go_on who done_unheard now) s =
      let (hello, phase) = s.calls who in spent key now hello phase s.tables
  losses_of key _ s = 0

  abbrev pub losses : String → List Move → System → ℕ
  losses key [] s = 0
  losses key (m ∷ ms) s = losses_of key m s + losses key ms (move m s)

  abbrev pub wins : String → List Move → System → ℕ
  wins key [] s = 0
  wins key (m ∷ ms) s = wins_of key m s + wins key ms (move m s)
