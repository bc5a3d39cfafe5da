-- ===== src/Deploy/Pipeline/Samples.antt =====
-- Deployments of concrete tables.
use edge_caddy.Prelude.{
  Bool, true, false, String, some, List, [], ◌∷◌, ◌≡◌, refl, ◌⊎◌, length, str_eq, if◌then◌else◌,
  arith,
}
use edge_caddy.Prelude.Assoc.{lookup}
use edge_caddy.Deploy.Keys.{ResKey, route, rule, key_eq, selected}
use edge_caddy.Deploy.Json.{num, str, bool, arr, nil, cons, obj, Fields, end, field, get, put}
use edge_caddy.Deploy.Merge.{
  ok, merge_into, merge_fields, merge_value, merge_rule_draft, changes_type, clear_spec,
}
use edge_caddy.Deploy.Effective.{
  Tables, Config, encode, patches, patch_of, merge_one, merge_rows, has_base, orphans, spec_of,
  name_of, effective,
}
use edge_caddy.Deploy.Commit.{commit}
use edge_caddy.Deploy.Retry.{PushOutcome, applied, unreachable, from_push, result}
use edge_caddy.Deploy.Support.{
  Node, type_of, is_effective, node_supports, needs, missing, unsupported_issues, unsupported_rules,
}
use edge_caddy.Deploy.Pipeline.{
  World, checked, first_round, first_result, tally, count, warn, crit, finished, event_kind, settle,
  after_check, deploy,
}
use edge_caddy.Deploy.Pipeline.Safety.{any_applied, orphan_kept, pushed_is_supported, tables-deploy}
use edge_caddy.Deploy.Pipeline.Counts.{
  number_ok, number_failed, retrying_nodes, counts_match, retries_match, lost_retries,
}

abbrev limit : Fields
limit = field "id" (str "r1") (
    field "type" (str "rate_limit")
      (field "enabled" (bool true) (field "apply_to" (arr (cons (str "shop.example") nil)) end)))

abbrev before : Tables
before = record {
  routes = [];
  rules = ("r1", record { body = limit; version = 4 }) ∷ [];
  policies = [];
  drafts = (rule "r1", obj (field "name" (str "cc") end)) ∷ (route "gone.example", obj end) ∷ [];
  baseline = "v0004";
}

abbrev agent : Node
agent = record { id = "hk-1"; is_drained = false; verify_kinds = "rate_limit" ∷ [] }

-- One node applies what is pushed, the other one cannot be reached.
abbrev answer : String → PushOutcome
answer node = if str_eq node "hk-1" then applied else unreachable

abbrev world : Bool → World
world commits = record {
  parses = λ tls log. true;
  certs_read = true;
  issues = λ c. [];
  nodes = some (agent ∷ []);
  online = "hk-1" ∷ "sg-1" ∷ [];
  version = "v0005";
  creates = true;
  push = answer;
  commits = commits;
}

abbrev keys : List ResKey
keys = rule "r1" ∷ []

abbrev merged : Fields
merged = field "id" (str "r1") (
    field "type" (str "rate_limit") (
      field "enabled" (bool true) (
        field "apply_to" (arr (cons (str "shop.example") nil))
          (field "version" (num 4) (field "name" (str "cc") end)))))

abbrev pushed : Config
pushed = record { routes = []; rules = ("r1", merged) ∷ []; policies = []; orphans = [] }

effective-before : effective (world true).parses keys before ≡ ok pushed
unfolding effective patches selected key_eq merge_rows patch_of merge_one encode put
    merge_rule_draft changes_type clear_spec merge_into merge_fields merge_value get orphans
    has_base lookup spec_of
effective-before = refl

ending-true : (deploy (world true) keys before []).ending ≡ finished 1 1 warn
unfolding deploy checked after_check settle first_round first_result tally count event_kind
    effective patches selected key_eq merge_rows patch_of merge_one encode put merge_rule_draft
    changes_type clear_spec merge_into merge_fields merge_value get orphans has_base lookup spec_of
    unsupported_rules needs is_effective type_of name_of unsupported_issues missing node_supports
ending-true = refl

ending-false : (deploy (world false) keys before []).ending ≡ finished 1 1 crit
unfolding deploy checked after_check settle first_round first_result tally count event_kind
    effective patches selected key_eq merge_rows patch_of merge_one encode put merge_rule_draft
    changes_type clear_spec merge_into merge_fields merge_value get orphans has_base lookup spec_of
    unsupported_rules needs is_effective type_of name_of unsupported_issues missing node_supports
ending-false = refl

results-true :
    (deploy (world true) keys before []).results
    ≡ result "hk-1" true from_push false ∷ result "sg-1" false from_push true ∷ []
unfolding deploy checked after_check settle first_round first_result tally count event_kind
    effective patches selected key_eq merge_rows patch_of merge_one encode put merge_rule_draft
    changes_type clear_spec merge_into merge_fields merge_value get orphans has_base lookup spec_of
    unsupported_rules needs is_effective type_of name_of unsupported_issues missing node_supports
results-true = refl

counts_match_example :
    (1 ≡ number_ok (deploy (world true) keys before []).results)
    × (1 ≡ number_failed (deploy (world true) keys before []).results)
    × (2 ≡ length (world true).online)
counts_match_example = counts_match (world true) keys before [] 1 1 warn ending-true

retries_match_example :
    (deploy (world true) keys before []).retries
    ≡ some (retrying_nodes (deploy (world true) keys before []).results)
retries_match_example = retries_match (world true) keys before [] 1 1 warn refl ending-true

lost_retries_example :
    ((deploy (world false) keys before []).retries ≡ some [])
    × (retrying_nodes (deploy (world false) keys before []).results
        ≡ (tally "v0005" answer [] ("hk-1" ∷ "sg-1" ∷ [])).need_retry)
lost_retries_example =
    lost_retries (world false) keys before [] 1 1 crit refl (omega arith) ending-false

tables-deploy_example :
    ((deploy (world true) keys before []).tables ≡ before)
    ⊎ ((c : Config) × (effective (world true).parses keys before ≡ ok c)
        × (c.orphans ≡ [])
        × (unsupported_rules (world true).nodes c.rules ≡ ok [])
        × (any_applied answer ("hk-1" ∷ "sg-1" ∷ []) ≡ true)
        × ((deploy (world true) keys before []).tables ≡ commit keys c "v0005" before))
tables-deploy_example = tables-deploy (world true) keys before []

orphan_kept_example :
    ((deploy (world true) (route "gone.example" ∷ keys) before []).tables ≡ before)
    × ((deploy (world true) (route "gone.example" ∷ keys) before []).results ≡ [])
unfolding selected key_eq has_base lookup
orphan_kept_example =
    orphan_kept (world true) (route "gone.example" ∷ keys) before [] (route "gone.example")
      (obj end) ((rule "r1", obj (field "name" (str "cc") end)) ∷ []) [] refl refl refl

pushed_is_supported_example : node_supports agent.verify_kinds (type_of merged) ≡ true
unfolding lookup is_effective type_of name_of get
pushed_is_supported_example =
    pushed_is_supported (world true) keys before [] pushed (result "hk-1" true from_push false)
      (result "sg-1" false from_push true ∷ []) [] agent [] "r1" merged results-true
      effective-before refl refl refl refl refl
