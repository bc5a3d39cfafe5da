-- ===== src/Tunnel/Sessions.antt =====
-- internal/tunnel/server.go: the map of sessions, with `register`, `unregister`, `Disconnect` and
-- `OnlineNodes`. A session is known by a number; the sessions that were ever made are kept beside.
pub mod Reachable
mod Samples
use edge_caddy.Prelude.{
  ℕ, suc, Bool, true, false, String, str_eq, Option, none, some, List, [], ◌∷◌, ◌==◌, if◌then◌else◌,
}
use edge_caddy.Prelude.Assoc.{Assoc, lookup, insert, delete}

pub record Session : Type 0 where
  pub node_id : String
  pub is_closed : Bool

pub record Server : Type 0 where
  pub sessions : Assoc ℕ
  pub made : ℕ → Option Session
  pub next_id : ℕ

abbrev pub start : Server
start = record { sessions = []; made = λ i. none; next_id = 0 }

abbrev closed : Option Session → Option Session
closed none = none
closed (some s) = some (record s { is_closed = true })

-- `close`, which may be called more than once.
unfoldable pub close : ℕ → Server → Server
close id s = record s { made = λ i. if i == id then closed (s.made i) else s.made i }

abbrev pub close_found : Option ℕ → Server → Server
close_found none s = s
close_found (some id) s = close id s

-- `register`: the new session takes the place of the node's old one, which is closed.
unfoldable pub register : String → Server → Server
unfolding close
register node s = close_found (lookup node s.sessions) (record s {
  sessions = insert node s.next_id s.sessions;
  made =
      λ i. if i == s.next_id then some (record { node_id = node; is_closed = false }) else s.made i;
  next_id = suc s.next_id;
})

abbrev pub is_session : ℕ → Option ℕ → Bool
is_session id none = false
is_session id (some j) = j == id

-- `unregister`, of a node and its session.
unfoldable pub unregister : String → ℕ → Server → Server
unfolding close
unregister node id s = close id (
    if is_session id (lookup node s.sessions)
    then record s { sessions = delete node s.sessions }
    else s)

-- `Disconnect`, which also says whether the node was connected.
unfoldable pub disconnect : String → Server → Server × Bool
unfolding close
disconnect node s = (
  close_found (lookup node s.sessions) s,
  elim (lookup node s.sessions) [ none ↦ false | some id ↦ true ],
)

abbrev keys_of : Assoc ℕ → List String
keys_of [] = []
keys_of ((k, id) ∷ m) = k ∷ keys_of m

-- `OnlineNodes`
unfoldable pub online_nodes : Server → List String
online_nodes s = keys_of s.sessions

-- What happens: an agent is let in, the stream of a session breaks, the handler of a session returns,
-- or a node is disconnected by the administrator.
pub data Event : Type 0 where
  arrive : String → Event
  broken : ℕ → Event
  return_of : ℕ → Event
  cut : String → Event

abbrev pub return_found : ℕ → Option Session → Server → Server
return_found id none s = s
return_found id (some session) s = unregister session.node_id id s

unfoldable pub step : Event → Server → Server
unfolding register unregister disconnect
step (arrive node) s = register node s
step (broken id) s = close id s
step (return_of id) s = return_found id (s.made id) s
step (cut node) s = (disconnect node s).0

unfoldable pub run : List Event → Server → Server
unfolding step
run [] s = s
run (e ∷ es) s = run es (step e s)
