-- ===== src/Agent/RateLimit/Samples.antt =====
-- One request per second, with a burst of two.
use edge_caddy.Prelude.{◌+◌, ◌-◌, ◌*◌, ◌≤◌, true, some, List, [], ◌∷◌, ◌≡◌, refl, arith}
use edge_caddy.Prelude.Assoc.{lookup}
use edge_caddy.Agent.RateLimit.{Bucket, Rate, second, refill, spend}
use edge_caddy.Agent.RateLimit.Bounds.{Request, let_through, let_through-bounded}
use edge_caddy.Agent.RateLimit.Waiting.{allowed_after_wait}

abbrev rate : Rate
rate = record { burst = 2; num = 2; den = 2 * second }

abbrev requests : List Request
requests =
    record { key = "a"; at = 10 }
    ∷ record { key = "b"; at = 20 }
    ∷ record { key = "a"; at = 30 }
    ∷ []

let_through-bounded_example :
    let_through rate "a" [] requests * (2 * second) ≤ 2 * (2 * second) + (30 - 10) * 2
unfolding lookup
let_through-bounded_example =
    let_through-bounded rate 10 30 "a" [] requests (omega arith) (omega arith)
      (omega arith, omega arith, (omega arith, omega arith, (omega arith, omega arith, tt))) refl

abbrev empty : Bucket
empty = record { tokens = 0; last = 10 }

allowed_after_wait_example :
    (spend rate (
      refill rate
        (10 + (spend rate (refill rate 10 (some empty))).1.wait)
        (some (spend rate (refill rate 10 (some empty))).0))).1.is_allowed
    ≡ true
unfolding spend refill
allowed_after_wait_example =
    allowed_after_wait rate 10 (some empty) (omega arith) (omega arith) refl
