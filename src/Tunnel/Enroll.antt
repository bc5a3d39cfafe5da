-- ===== src/Tunnel/Enroll.antt =====
-- internal/tunnel/server.go: `identify`, which lets an agent in by its certificate or by a token, with
-- the statements of internal/store/enroll.go. Each phase ends with one call of the database or of the
-- certificate authority, and calls of several agents interleave between them.
pub mod Moves
pub mod Exact
pub mod Ends
mod Samples
use edge_caddy.Prelude.{
  ℕ, ◌+◌, ◌*◌, Bool, true, false, not, ◌&&◌, ◌||◌, String, str_eq, Option, none, some, List, [],
  ◌∷◌, ◌++◌, ltb, ◌==◌, if◌then◌else◌,
}
use edge_caddy.Prelude.Assoc.{Assoc, lookup, insert, delete}

-- `EnrollTokenTTL`, in nanoseconds.
abbrev pub enroll_token_ttl : ℕ
enroll_token_ttl = 1800 * 1000000000

pub record NodeSpec : Type 0 where
  pub node_id : String
  pub city : String
  pub vendor : String
  pub line : String
  pub public_ip : String

-- A row of `enroll_tokens`.
pub record TokenRow : Type 0 where
  pub spec : NodeSpec
  pub is_used : Bool
  pub expires_at : ℕ

-- A row of `edge_nodes`, as far as a new connection depends on it.
pub record NodeRow : Type 0 where
  pub spec : NodeSpec
  pub is_drained : Bool

pub data TokenError : Type 0 where
  token_invalid : TokenError
  token_expired : TokenError
  token_used : TokenError

pub data Refusal : Type 0 where
  no_credentials : Refusal
  bad_token : TokenError → Refusal
  unknown_node : Refusal
  drained_node : Refusal

pub data Outcome : Type 0 where
  -- the node, and whether it joined with a token
  accepted : String → Bool → Outcome
  refused : Refusal → Outcome
  -- another call used the token first
  overtaken : Outcome
  internal_error : Outcome

pub data Phase : Type 0 where
  read_baseline : Phase
  check_known : String → Phase
  check_drained : String → Phase
  peek_token : Phase
  check_spec : NodeSpec → Phase
  upsert : NodeSpec → Phase
  sign : NodeSpec → Phase
  consume_token : NodeSpec → Phase
  done : Outcome → Phase

-- The first frame of a connection, with the name in the client's certificate, "" for none.
pub record Hello : Type 0 where
  pub cert_cn : String
  pub token : String
  pub node_id : String

-- The tables. An event is about a node, or about none.
pub record Tables : Type 0 where
  pub nodes : Assoc NodeRow
  pub tokens : Assoc TokenRow
  pub events : List (String × Refusal)

-- `UpsertNode`; the other columns of a node that is there stay.
unfoldable pub upsert_node : NodeSpec → Assoc NodeRow → Assoc NodeRow
upsert_node spec nodes = elim (lookup spec.node_id nodes) [
  | none ↦ insert spec.node_id (record { spec = spec; is_drained = false }) nodes
  | some row ↦ insert spec.node_id (record row { spec = spec }) nodes
]

-- `IsNodeDrained`; a node that is not there is not.
unfoldable pub is_node_drained : String → Assoc NodeRow → Bool
is_node_drained id nodes = elim (lookup id nodes) [ none ↦ false | some row ↦ row.is_drained ]

-- `refuseEnroll`
abbrev pub refuse : String → Refusal → Tables → Tables × Phase
refuse node why t = (record t { events = t.events ++ (node, why) ∷ [] }, done (refused why))

-- `refuseIfUnknown`
abbrev pub known_row : String → Option NodeRow → Tables → Tables × Phase
known_row cn none t = refuse cn unknown_node t
known_row cn (some row) t = (t, check_drained cn)

-- How a statement ends for the call that sends it: with an answer; or without one, because of an error,
-- a context that has ended or a connection that breaks, before or after the database did it.
pub data Answer : Type 0 where
  replied not_done done_unheard : Answer

module _ (hash : String → String) where
  -- `IssueEnrollToken`; the text of the token is random, and a hash that is there is refused.
  unfoldable pub issue_token : ℕ → String → NodeSpec → Assoc TokenRow → Assoc TokenRow
  issue_token now plain spec tokens = elim (lookup (hash plain) tokens) [
    | none ↦
        insert (hash plain)
          (record { spec = spec; is_used = false; expires_at = now + enroll_token_ttl }) tokens
    | some row ↦ tokens
  ]

  -- The node that an event about a token names: none, if the token is not known.
  abbrev pub named_by : Hello → TokenError → String
  named_by hello token_invalid = ""
  named_by hello _ = hello.node_id

  abbrev bad : Hello → TokenError → Tables → Tables × Phase
  bad hello e t = refuse (named_by hello e) (bad_token e) t

  abbrev pub peeked_row : ℕ → Hello → Option TokenRow → Tables → Tables × Phase
  peeked_row now hello none t = bad hello token_invalid t
  peeked_row now hello (some row) t =
      if row.is_used
      then bad hello token_used t
      else if ltb row.expires_at now
      then bad hello token_expired t
      else (t, check_spec row.spec)

  -- `PeekEnrollToken`, and what `identify` does with it.
  unfoldable pub peek : ℕ → Hello → Tables → Tables × Phase
  peek now hello t = peeked_row now hello (lookup (hash hello.token) t.tokens) t

  abbrev pub consume_row : ℕ → String → Option TokenRow → Assoc TokenRow → Assoc TokenRow × Bool
  consume_row now key none tokens = (tokens, false)
  consume_row now key (some row) tokens =
      if not row.is_used && ltb now row.expires_at
      then (insert key (record row { is_used = true }) tokens, true)
      else (tokens, false)

  -- `ConsumeEnrollToken`
  unfoldable pub consume : ℕ → String → Assoc TokenRow → Assoc TokenRow × Bool
  consume now plain tokens = consume_row now (hash plain) (lookup (hash plain) tokens) tokens

  abbrev pub after_consume : NodeSpec → Tables → Assoc TokenRow × Bool → Tables × Phase
  after_consume spec t (tokens, ok) =
      (record t { tokens = tokens }, done (if ok then accepted spec.node_id true else overtaken))

  -- What a call does in its phase, if the database and the authority answer.
  unfoldable pub advance : ℕ → Hello → Phase → Tables → Tables × Phase
  unfolding upsert_node is_node_drained peek consume
  advance now hello read_baseline t =
      if not (str_eq hello.cert_cn "")
      then (t, check_known hello.cert_cn)
      else if str_eq hello.token ""
      then refuse "" no_credentials t
      else (t, peek_token)
  advance now hello (check_known cn) t = known_row cn (lookup cn t.nodes) t
  advance now hello (check_drained cn) t =
      if is_node_drained cn t.nodes then refuse cn drained_node t else (t, done (accepted cn false))
  advance now hello peek_token t = peek now hello t
  advance now hello (check_spec spec) t =
      if is_node_drained spec.node_id t.nodes
      then refuse spec.node_id drained_node t
      else (t, upsert spec)
  advance now hello (upsert spec) t = (record t { nodes = upsert_node spec t.nodes }, sign spec)
  advance now hello (sign spec) t = (t, consume_token spec)
  advance now hello (consume_token spec) t = after_consume spec t (consume now hello.token t.tokens)
  advance now hello (done o) t = (t, done o)

  abbrev pub is_done : Phase → Bool
  is_done (done o) = true
  is_done _ = false

  -- What a call has done to the tables when it does not hear that its statement is done. Reading
  -- changes nothing, and a certificate that is signed is in no table.
  unfoldable pub unheard : ℕ → Hello → Phase → Tables → Tables
  unfolding upsert_node consume
  unheard now hello (upsert spec) t = record t { nodes = upsert_node spec t.nodes }
  unheard now hello (consume_token spec) t =
      (after_consume spec t (consume now hello.token t.tokens)).0
  unheard now hello _ t = t

  abbrev pub ended : Phase → Phase
  ended (done o) = done o
  ended _ = done internal_error

  -- A turn of a call: without an answer it ends with an error, whether its statement was done or not.
  unfoldable pub turn : Answer → ℕ → Hello → Phase → Tables → Tables × Phase
  unfolding advance unheard
  turn replied now hello phase t = advance now hello phase t
  turn not_done now hello phase t = (t, ended phase)
  turn done_unheard now hello phase t = (unheard now hello phase t, ended phase)
