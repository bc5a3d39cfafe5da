-- ===== src/Deploy/Support.antt =====
-- deploy.go: which nodes can apply which rules (`unsupportedRules`, `nodeSupports`,
-- `countEffectiveRules`). A rule is the object that it is encoded to.
pub mod Checked
mod Samples
use edge_caddy.Prelude.{
  ℕ, ◌+◌, Bool, true, false, ◌&&◌, not, String, Option, none, some, List, [], ◌∷◌, if◌then◌else◌,
  has,
}
use edge_caddy.Prelude.Assoc.{Assoc}
use edge_caddy.Deploy.Json.{Json, null, bool, num, str, arr, obj, Items, nil, cons, Fields, get}
use edge_caddy.Deploy.Merge.{Outcome, ok, err}
use edge_caddy.Deploy.Effective.{name_of}

-- The columns of a node that the check reads.
pub record Node : Type 0 where
  pub id : String
  pub is_drained : Bool
  pub verify_kinds : List String

abbrev pub legacy_verify_kinds : List String
legacy_verify_kinds = "service_secret" ∷ "jwt_bearer" ∷ []

-- The types in the `switch` of `unsupportedRules`.
abbrev pub verified_kinds : List String
verified_kinds = "service_secret" ∷ "jwt_bearer" ∷ "rate_limit" ∷ "geo_block" ∷ []

unfoldable pub type_of : Fields → String
unfolding name_of
type_of rule = name_of (get "type" rule)

abbrev is_true : Option Json → Bool
is_true (some (bool b)) = b
is_true _ = false

abbrev is_filled : Option Json → Bool
is_filled (some (arr (cons _ _))) = true
is_filled _ = false

-- `r.Enabled && len(r.ApplyTo) > 0`
unfoldable pub is_effective : Fields → Bool
is_effective rule = is_true (get "enabled" rule) && is_filled (get "apply_to" rule)

-- `countEffectiveRules`
unfoldable pub count_effective_rules : Assoc Fields → ℕ
count_effective_rules [] = 0
count_effective_rules ((_, rule) ∷ rest) =
    let n = count_effective_rules rest in if is_effective rule then n + 1 else n

-- `nodeSupports`
unfoldable pub node_supports : List String → String → Bool
node_supports [] kind = has kind legacy_verify_kinds
node_supports (k ∷ ks) kind = has kind (k ∷ ks)

-- `needs`: the types of effective rules that the verification endpoint has to know.
unfoldable pub needs : Assoc Fields → List String
unfolding is_effective type_of
needs [] = []
needs ((_, rule) ∷ rest) =
    let kinds = needs rest in
    if is_effective rule && has (type_of rule) verified_kinds then type_of rule ∷ kinds else kinds

-- The nodes in service that do not know the type.
unfoldable pub missing : List Node → String → List String
unfolding node_supports
missing [] kind = []
missing (n ∷ ns) kind =
    let others = missing ns kind in
    if not n.is_drained && not (node_supports n.verify_kinds kind) then n.id ∷ others else others

pub record Unsupported : Type 0 where
  pub rule : String
  pub nodes : List String

abbrev pub report : String → List String → List Unsupported → List Unsupported
report id [] issues = issues
report id (n ∷ ns) issues = (record { rule = id; nodes = n ∷ ns }) ∷ issues

-- The second loop of `unsupportedRules`.
unfoldable pub unsupported_issues : List String → List Node → Assoc Fields → List Unsupported
unfolding missing
unsupported_issues kinds nodes [] = []
unsupported_issues kinds nodes ((id, rule) ∷ rest) =
    let issues = unsupported_issues kinds nodes rest in
    if is_effective rule && has (type_of rule) kinds
    then report id (missing nodes (type_of rule)) issues
    else issues

abbrev pub read_nodes : List String → Option (List Node) → Assoc Fields → Outcome (List Unsupported)
read_nodes [] nodes rules = ok []
read_nodes (k ∷ ks) none rules = err
read_nodes (k ∷ ks) (some nodes) rules = ok (unsupported_issues (k ∷ ks) nodes rules)

-- `unsupportedRules`. `none` is an error of `ListNodes`, which is not asked when no type is needed.
unfoldable pub unsupported_rules : Option (List Node) → Assoc Fields → Outcome (List Unsupported)
unfolding needs unsupported_issues
unsupported_rules nodes rules = read_nodes (needs rules) nodes rules
