-- ===== src/Agent/Backoff/Samples.antt =====
-- Runs of backoff.go at concrete lifetimes.
use edge_caddy.Prelude.{◌≡◌, refl, List, [], ◌∷◌, ◌*◌, ℕ}
use edge_caddy.Agent.Backoff.{ReconnectBackoff, second, next, waits}

abbrev fresh : ReconnectBackoff
fresh = record { cur = 0 }

abbrev flapping : List ℕ
flapping = 5 ∷ 0 ∷ 59 * second ∷ 7 ∷ 7 ∷ 7 ∷ 7 ∷ []

flapping-waits :
    waits fresh flapping
    ≡ second ∷ 2 * second ∷ 4 * second ∷ 8 * second ∷ 16 * second ∷ 30 * second ∷ 30 * second ∷ []
unfolding waits next
flapping-waits = refl
