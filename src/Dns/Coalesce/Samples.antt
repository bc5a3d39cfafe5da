-- ===== src/Dns/Coalesce/Samples.antt =====
-- A node goes down while the resolution is being synchronised for another one.
use edge_caddy.Prelude.{◌≤◌, List, [], ◌∷◌, refl}
use edge_caddy.Dns.Coalesce.{Call, Read, Event, write, call, begin, release, join, start, step, run}
use edge_caddy.Dns.Coalesce.Freshness.{read_after_call}

abbrev events : List Event
events = call ∷ begin ∷ write ∷ call ∷ release ∷ begin ∷ []

abbrev second_call : Call
second_call = record { batch = 1; asked_at = 1 }

abbrev second_read : Read
second_read = record { batch = 1; version = 1 }

read_after_call_example : second_call.asked_at ≤ second_read.version
unfolding run step join start
read_after_call_example =
    read_after_call events second_call second_read [] ((record { batch = 0; asked_at = 0 }) ∷ []) []
      ((record { batch = 0; version = 0 }) ∷ []) refl refl refl
