-- ===== src/Tunnel/Waiters.antt =====
-- internal/tunnel/session.go: the waiters of a session, with what `push` does to them and `deliver`. A
-- push has a number of its own, which stands for its channel.
pub mod Own
mod Samples
use edge_caddy.Prelude.{
  ℕ, Bool, String, Option, none, some, List, [], ◌∷◌, ◌++◌, ◌==◌, if◌then◌else◌,
}
use edge_caddy.Prelude.Assoc.{Assoc, lookup, insert, delete}

-- `PushResult`, which a node sends.
pub record PushResult : Type 0 where
  pub version : String
  pub is_ok : Bool
  pub detail : String

-- A push: the version that it waits for, and what was sent to its channel, in order.
pub record Push : Type 0 where
  pub version : String
  pub received : List PushResult

pub record Waiting : Type 0 where
  pub waiters : Assoc ℕ
  pub pushes : ℕ → Option Push

abbrev pub nothing_waits : Waiting
nothing_waits = record { waiters = []; pushes = λ i. none }

-- The beginning of `push`, if the number is not taken.
abbrev pub begin_fresh : ℕ → String → Option Push → Waiting → Waiting
begin_fresh id version none s = record {
  waiters = insert version id s.waiters;
  pushes = λ i. if i == id then some (record { version = version; received = [] }) else s.pushes i;
}
begin_fresh id version (some p) s = s

unfoldable pub begin_push : ℕ → String → Waiting → Waiting
begin_push id version s = begin_fresh id version (s.pushes id) s

-- The deferred end of `push`: whatever waits for the version is taken out.
abbrev pub end_found : Option Push → Waiting → Waiting
end_found none s = s
end_found (some p) s = record s { waiters = delete p.version s.waiters }

unfoldable pub end_push : ℕ → Waiting → Waiting
end_push id s = end_found (s.pushes id) s

abbrev pub receive : PushResult → Option Push → Option Push
receive r none = none
receive r (some p) = some (record p { received = p.received ++ r ∷ [] })

abbrev pub send_found : Option ℕ → PushResult → Waiting → Waiting
send_found none r s = s
send_found (some id) r s = record s {
  pushes = λ i. if i == id then receive r (s.pushes i) else s.pushes i;
}

-- `deliver`
unfoldable pub deliver : PushResult → Waiting → Waiting
deliver r s =
    send_found (lookup r.version s.waiters) r (record s { waiters = delete r.version s.waiters })

pub data Event : Type 0 where
  begins : ℕ → String → Event
  ends : ℕ → Event
  replied : PushResult → Event

unfoldable pub step : Event → Waiting → Waiting
unfolding begin_push end_push deliver
step (begins id version) s = begin_push id version s
step (ends id) s = end_push id s
step (replied r) s = deliver r s

unfoldable pub run : List Event → Waiting → Waiting
unfolding step
run [] s = s
run (e ∷ es) s = run es (step e s)
