-- ===== src/Ws/Hub/Samples.antt =====
-- A client that is slow to read.
use edge_caddy.Prelude.{some, none, false, List, [], ◌∷◌, ◌≡◌, refl}
use edge_caddy.Ws.Hub.{no_clients, Event, subscribed, unsubscribed, broadcast, frame_taken, run}
use edge_caddy.Ws.Hub.Gapless.{Follows, sent_since, run-no_clients-Follows}

abbrev visit : List Event
visit =
    broadcast (some "a")
    ∷ subscribed 0
    ∷ broadcast (some "b")
    ∷ broadcast none
    ∷ broadcast (some "c")
    ∷ frame_taken 0
    ∷ unsubscribed 0
    ∷ broadcast (some "d")
    ∷ []

visit_read :
    run visit no_clients 0
    ≡ some (record { is_open = false; buffered = "c" ∷ []; taken = "b" ∷ [] })
unfolding run
visit_read = refl

visit_sent : sent_since visit 0 none ≡ some ("b" ∷ "c" ∷ "d" ∷ [])
visit_sent = refl

run-no_clients-Follows_example : Follows (run visit no_clients 0) (sent_since visit 0 none)
run-no_clients-Follows_example = run-no_clients-Follows visit 0
