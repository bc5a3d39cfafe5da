-- ===== src/Tunnel/Sessions/Samples.antt =====
-- Sessions that come and go.
use edge_caddy.Prelude.{ℕ, some, List, [], ◌∷◌, ◌≡◌, refl}
use edge_caddy.Prelude.Assoc.{lookup, insert, delete}
use edge_caddy.Tunnel.Sessions.{start, online_nodes, Event, arrive, return_of, cut, run}
use edge_caddy.Tunnel.Sessions.Reachable.{IsOpen, IsOpen-lookup}

-- The node reconnects before its old session has ended.
abbrev reconnect : List Event
reconnect = arrive "a" ∷ arrive "b" ∷ arrive "a" ∷ return_of 0 ∷ cut "b" ∷ []

reconnect-IsOpen : IsOpen (run reconnect start) "a" 2
unfolding run lookup insert
reconnect-IsOpen = refl

reconnect_online : online_nodes (run (return_of 1 ∷ []) (run reconnect start)) ≡ "a" ∷ []
unfolding run online_nodes lookup insert delete
reconnect_online = refl

IsOpen-lookup_example :
    (lookup "a" (run reconnect start).sessions ≡ some 2)
    × ((other : ℕ) → IsOpen (run reconnect start) "a" other → other ≡ 2)
IsOpen-lookup_example = IsOpen-lookup reconnect "a" 2 reconnect-IsOpen
