-- ===== src/Tunnel/Sessions/Reachable.antt =====
-- The open sessions and the map of sessions.
use edge_caddy.Prelude.{
  ℕ, suc, Bool, true, false, String, str_eq, eq_iff, Option, none, some, List, [], ◌∷◌, ◌==◌,
  ==_iff, ◌≡◌, refl, sym, ap, ◌∙◌, if◌then◌else◌,
}
use edge_caddy.Prelude.Assoc.{lookup, insert, delete, lookup-insert, lookup-delete, lookup_same}
use edge_caddy.Tunnel.Sessions.{
  Session, Server, start, closed, close, close_found, register, is_session, unregister, disconnect,
  Event, arrive, broken, return_of, cut, return_found, step, run,
}

-- The session is open, and of the node.
abbrev pub IsOpen : Server → String → ℕ → Type 0
IsOpen s node id = s.made id ≡ some (record { node_id = node; is_closed = false })

-- Every open session is the one that the map has for its node.
abbrev pub IsReachable : Server → Type 0
IsReachable s = (node : String) (id : ℕ) → IsOpen s node id → lookup node s.sessions ≡ some id

-- What is open after a session has been closed was open before, and is another one.
close-IsOpen :
    (closing : ℕ) (s : Server) (node : String) (id : ℕ)
    → IsOpen (close closing s) node id
    → IsOpen s node id × ((id == closing) ≡ false)
unfolding close
close-IsOpen closing s node id is_open = by_test (id == closing) refl is_open
  where
    never :
        (o : Option Session) → closed o ≡ some (record { node_id = node; is_closed = false }) → ⊥
    never none h = cc
    never (some x) h = cc

    by_test :
        (b : Bool)
        → (id == closing) ≡ b
        → (if b then closed (s.made id) else s.made id)
          ≡ some (record { node_id = node; is_closed = false })
        → IsOpen s node id × ((id == closing) ≡ false)
    by_test true e h = absurd (never (s.made id) h)
    by_test false e h = (h, e)

close_found-IsReachable :
    (o : Option ℕ) (s : Server) → IsReachable s → IsReachable (close_found o s)
unfolding close
close_found-IsReachable none s reach = reach
close_found-IsReachable (some closing) s reach =
    λ node id is_open. reach node id (close-IsOpen closing s node id is_open).0

none_is_not_some : (i : ℕ) → none ≡ some i → ⊥
none_is_not_some i h = cc

two_values : true ≡ false → ⊥
two_values h = cc

none_open : (node : String) (id : ℕ) → IsOpen start node id → lookup node start.sessions ≡ some id
none_open node id h = cc

same_id : (i j : ℕ) → some i ≡ some j → (i == j) ≡ true
same_id i j h = (==_iff i j).1 (ap or_zero h)
  where
    or_zero : Option ℕ → ℕ
    or_zero none = 0
    or_zero (some n) = n

abbrev with_new : String → Server → Server
with_new node s = record s {
  sessions = insert node s.next_id s.sessions;
  made =
      λ i. if i == s.next_id then some (record { node_id = node; is_closed = false }) else s.made i;
  next_id = suc s.next_id;
}

with_new-IsOpen :
    (node : String) (s : Server)
    → IsReachable s
    → (other : String) (id : ℕ) → IsOpen (with_new node s) other id
    → (lookup node s.sessions ≡ some id → ⊥)
    → lookup other (with_new node s).sessions ≡ some id
with_new-IsOpen node s reach other id is_open not_old = by_id (id == s.next_id) refl is_open
  where
    node_or : Option Session → String
    node_or none = node
    node_or (some x) = x.node_id

    old_one :
        (b : Bool)
        → str_eq node other ≡ b
        → lookup other s.sessions ≡ some id
        → lookup other (insert node s.next_id s.sessions) ≡ some id
    old_one true e found = absurd (not_old (lookup_same node other s.sessions e ∙ found))
    old_one false e found = rw (lookup-insert node other s.next_id s.sessions, e) found

    by_id :
        (b : Bool)
        → (id == s.next_id) ≡ b
        → (if b then some (record { node_id = node; is_closed = false }) else s.made id)
          ≡ some (record { node_id = other; is_closed = false })
        → lookup other (insert node s.next_id s.sessions) ≡ some id
    by_id true e h =
        rw (lookup-insert node other s.next_id s.sessions, (eq_iff node other).1 (ap node_or h))
          (ap some (sym ((==_iff id s.next_id).0 e)))
    by_id false e h = old_one (str_eq node other) refl (reach other id h)

register-IsReachable : (node : String) (s : Server) → IsReachable s → IsReachable (register node s)
unfolding register
register-IsReachable node s reach = by_old (lookup node s.sessions) refl
  where
    by_old :
        (o : Option ℕ) → lookup node s.sessions ≡ o → IsReachable (close_found o (with_new node s))
    by_old none e = λ other id is_open.
        with_new-IsOpen node s reach other id is_open (λ h. none_is_not_some id (sym e ∙ h))
    by_old (some old) e = λ other id is_open.
        let before = close-IsOpen old (with_new node s) other id is_open in
        let stays =
          with_new-IsOpen node s reach other id before.0
            (λ h. two_values (sym (same_id id old (sym h ∙ e)) ∙ before.1)) in
        unfold close in stays

unregister-IsReachable :
    (node : String) (gone : ℕ) (s : Server) → IsReachable s → IsReachable (unregister node gone s)
unfolding unregister
unregister-IsReachable node gone s reach = by_test (is_session gone (lookup node s.sessions)) refl
  where
    session_of : (o : Option ℕ) → is_session gone o ≡ true → o ≡ some gone
    session_of none h = cc
    session_of (some j) h = ap some ((==_iff j gone).0 h)

    kept :
        (other : String) (id : ℕ) (b : Bool)
        → str_eq node other ≡ b
        → lookup node s.sessions ≡ some gone
        → (id == gone) ≡ false
        → lookup other s.sessions ≡ some id
        → lookup other (delete node s.sessions) ≡ some id
    kept other id true e found apart h = absurd (
        two_values (
          sym (same_id id gone (sym h ∙ sym (lookup_same node other s.sessions e) ∙ found))
          ∙ apart))
    kept other id false e found apart h = rw (lookup-delete node other s.sessions, e) h

    by_test :
        (b : Bool)
        → is_session gone (lookup node s.sessions) ≡ b
        → IsReachable (close gone (if b then record s { sessions = delete node s.sessions } else s))
    by_test true e = λ other id is_open.
        let before =
          close-IsOpen gone (record s { sessions = delete node s.sessions }) other id is_open in
        let stays =
          kept other id (str_eq node other) refl (session_of _ e) before.1
            (reach other id before.0) in
        unfold close in stays
    by_test false e = λ other id is_open.
        let stays = reach other id (close-IsOpen gone s other id is_open).0 in unfold close in stays

step-IsReachable : (e : Event) (s : Server) → IsReachable s → IsReachable (step e s)
unfolding step disconnect
step-IsReachable (arrive node) s reach = register-IsReachable node s reach
step-IsReachable (broken id) s reach = close_found-IsReachable (some id) s reach
step-IsReachable (return_of id) s reach = by_session (s.made id)
  where
    by_session : (o : Option Session) → IsReachable (return_found id o s)
    by_session none = reach
    by_session (some session) = unregister-IsReachable session.node_id id s reach
step-IsReachable (cut node) s reach = close_found-IsReachable (lookup node s.sessions) s reach

run-IsReachable : (es : List Event) (s : Server) → IsReachable s → IsReachable (run es s)
unfolding run
run-IsReachable [] s reach = reach
run-IsReachable (e ∷ es) s reach = run-IsReachable es (step e s) (step-IsReachable e s reach)

-- Whatever order sessions come, break, return and are cut in: a session that is open is the one that
-- the map has for its node, so it is listed and pushed to, and the node has no other open session. The
-- end of an old session never takes the new one of the node out of the map.
pub IsOpen-lookup :
    (es : List Event) (node : String) (id : ℕ)
    → IsOpen (run es start) node id
    → (lookup node (run es start).sessions ≡ some id)
      × ((other : ℕ) → IsOpen (run es start) node other → other ≡ id)
IsOpen-lookup es node id is_open =
    let reach = run-IsReachable es start (λ n i is_open. none_open n i is_open) in
    (
      reach node id is_open,
      λ other is_other.
          (==_iff other id).0
            (same_id other id (sym (reach node other is_other) ∙ reach node id is_open)),
    )
