-- ===== src/Deploy/Commit.antt =====
-- internal/store/commit.go: what a deployment writes in one transaction. A transaction that fails
-- leaves the tables as they were. The columns are those of upsertRoute (routes.go), ruleColumns
-- (rules.go) and upsertPolicy (policies.go), all under internal/store.
pub mod Laws
pub mod Names
pub mod Live
mod Samples
use edge_caddy.Prelude.{
  ℕ, ◌+◌, Bool, true, false, String, Option, none, some, List, [], ◌∷◌, if◌then◌else◌, str_eq,
}
use edge_caddy.Prelude.Assoc.{Assoc, lookup, insert}
use edge_caddy.Deploy.Keys.{ResKey, route, rule, global, selected}
use edge_caddy.Deploy.Json.{Json, null, bool, num, str, arr, obj, Fields, get, put, nil}
use edge_caddy.Deploy.Effective.{Row, Tables, Config, name_of}

unfoldable pub upsert_body : Fields → Option Row → Row
upsert_body merged none = record { body = merged; version = 0 }
upsert_body merged (some row) = record row { body = merged }

-- `defaultStr` of a field: what is missing or null was decoded to the empty string.
unfoldable pub default_str : String → String → Fields → Fields
default_str k default m = elim (get k m) [
  | none ↦ put k (str default) m
  | some v ↦ elim v [
    | null ↦ put k (str default) m
    | str s ↦ if str_eq s "" then put k (str default) m else m
    | bool b ↦ m
    | num n ↦ m
    | arr xs ↦ m
    | obj o ↦ m
  ]
]

-- `defaultSlice` of a field, which makes an empty list of nil.
unfoldable pub default_slice : String → Fields → Fields
default_slice k m = elim (get k m) [
  | none ↦ put k (arr nil) m
  | some v ↦ elim v [
    | null ↦ put k (arr nil) m
    | str s ↦ m
    | bool b ↦ m
    | num n ↦ m
    | arr xs ↦ m
    | obj o ↦ m
  ]
]

-- What `upsertRoute`, `upsertRule` and `upsertPolicy` write for a resource.
unfoldable pub stored_route : Fields → Fields
unfolding default_str default_slice
stored_route m =
    default_str "block_mode" "abort" (default_str "body_max" "5MB" (default_slice "whitelist" m))

unfoldable pub stored_rule : Fields → Fields
unfolding default_slice
stored_rule m = default_slice "apply_to" m

-- The names of `defaultPolicies`; another policy keeps its empty name.
abbrev pub default_name : String → String
default_name id = if str_eq id "tls" then "TLS 策略" else if str_eq id "log" then "日志与限流" else ""

unfoldable pub stored_policy : Fields → Fields
unfolding default_str name_of
stored_policy m = default_str "name" (default_name (name_of (get "id" m))) m

-- The statement of an upsert: every column but the version.
unfoldable pub upsert : String → Fields → Assoc Row → Assoc Row
unfolding upsert_body
upsert id merged rows = insert id (upsert_body merged (lookup id rows)) rows

-- The loop over the resources of one kind: those that were selected are written.
unfoldable pub upsert_selected :
    (String → ResKey)
    → String
    → (Fields → Fields)
    → List ResKey
    → Assoc Fields
    → Assoc Row
    → Assoc Row
unfolding upsert name_of
upsert_selected key name store keys [] rows = rows
upsert_selected key name store keys ((_, merged) ∷ rest) rows =
    let id = name_of (get name merged) in
    upsert_selected key name store keys rest
      (if selected keys (key id) then upsert id (store merged) rows else rows)

-- `UPDATE … SET version = version + 1 WHERE id = ANY(…)`
unfoldable pub bump : (String → ResKey) → List ResKey → Assoc Row → Assoc Row
bump key keys [] = []
bump key keys ((id, row) ∷ rest) =
    (id, if selected keys (key id) then record row { version = row.version + 1 } else row)
    ∷ bump key keys rest

-- `DELETE FROM config_drafts WHERE res_key = ANY(…)`
unfoldable pub delete_drafts : List ResKey → List (ResKey × Json) → List (ResKey × Json)
delete_drafts keys [] = []
delete_drafts keys ((k, patch) ∷ rest) =
    let others = delete_drafts keys rest in if selected keys k then others else (k, patch) ∷ others

-- `CommitDeploy`
unfoldable pub commit : List ResKey → Config → String → Tables → Tables
unfolding upsert_selected bump delete_drafts stored_route stored_rule stored_policy
commit keys c version t = record {
  routes = bump route keys (upsert_selected route "domain" stored_route keys c.routes t.routes);
  rules = bump rule keys (upsert_selected rule "id" stored_rule keys c.rules t.rules);
  policies =
      bump global keys (upsert_selected global "id" stored_policy keys c.policies t.policies);
  drafts = delete_drafts keys t.drafts;
  baseline = version;
}
