-- ===== src/Deploy/Commit/Live.antt =====
-- What is live after a deployment is what was pushed, with the defaults of the store.
use edge_caddy.Prelude.{Bool, true, false, Option, List, []}
use edge_caddy.Prelude.Assoc.{Assoc}
use edge_caddy.Deploy.Keys.{ResKey, global}
use edge_caddy.Deploy.Json.{Json, Fields}
use edge_caddy.Deploy.Effective.{Row, Tables, Config, orphans}
use edge_caddy.Deploy.Effective.Laws.{encode_all}
use edge_caddy.Deploy.Commit.{upsert_selected, bump, stored_policy}
use edge_caddy.Deploy.Commit.Laws.{stored_at}

-- What a commit makes live of a resource: what is stored, if it was selected.
abbrev pub settled : (Fields → Fields) → Bool → Option Fields → Option Fields
settled store true m = stored_at store m
settled store false m = m

plain : Tables → Config
plain t = record {
  routes = encode_all t.routes;
  rules = encode_all t.rules;
  policies = encode_all t.policies;
  orphans = orphans t [];
}

-- The policies that a commit leaves.
committed : List ResKey → Tables → Config → Assoc Row
committed keys t c =
    bump global keys (upsert_selected global "id" stored_policy keys c.policies t.policies)
