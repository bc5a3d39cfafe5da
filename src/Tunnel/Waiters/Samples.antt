-- ===== src/Tunnel/Waiters/Samples.antt =====
-- Two pushes of one version at once.
use edge_caddy.Prelude.{true, String, some, List, [], ◌∷◌, ◌≡◌, refl}
use edge_caddy.Prelude.Assoc.{lookup, insert, delete}
use edge_caddy.Tunnel.Waiters.{PushResult, nothing_waits, Event, begins, ends, replied, run}
use edge_caddy.Tunnel.Waiters.Own.{IsOwn, run-IsOwn}

abbrev fine : String → PushResult
fine version = record { version = version; is_ok = true; detail = "" }

abbrev one_push : List Event
one_push = begins 0 "v1" ∷ begins 1 "v2" ∷ replied (fine "v1") ∷ replied (fine "v1") ∷ ends 0 ∷ []

-- The first one ends, by its deadline, and takes the second one's waiter with it: the reply is lost.
abbrev twice : List Event
twice = begins 0 "v1" ∷ begins 1 "v1" ∷ ends 0 ∷ replied (fine "v1") ∷ []

twice_lost : (run twice nothing_waits).pushes 1 ≡ some (record { version = "v1"; received = [] })
unfolding run lookup insert delete
twice_lost = refl

one_push_answered :
    (run one_push nothing_waits).pushes 0
    ≡ some (record { version = "v1"; received = fine "v1" ∷ [] })
unfolding run lookup insert delete
one_push_answered = refl

run-IsOwn_example : IsOwn (record { version = "v1"; received = fine "v1" ∷ [] })
run-IsOwn_example =
    run-IsOwn one_push 0 (record { version = "v1"; received = fine "v1" ∷ [] }) one_push_answered
