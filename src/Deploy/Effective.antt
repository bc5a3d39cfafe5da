-- ===== src/Deploy/Effective.antt =====
-- The configuration that a deployment would push: `effective` of deploy.go, over the tables of live
-- resources and of drafts. A row is its object without the version, which is a column of its own;
-- a rule's shared secret is not part of the object and no draft touches it. The policies are those
-- that `ListPolicies` gives, the default ones included.
pub mod Laws
use edge_caddy.Prelude.{
  ℕ, Bool, true, false, not, String, Option, none, some, List, [], ◌∷◌, if◌then◌else◌, str_eq,
}
use edge_caddy.Prelude.Assoc.{Assoc, lookup}
use edge_caddy.Deploy.Keys.{ResKey, route, rule, global, other, key_eq, selected}
use edge_caddy.Deploy.Json.{Json, null, bool, num, str, arr, obj, Fields, get, put}
use edge_caddy.Deploy.Merge.{Outcome, ok, err, panic, ◌>>=◌, merge_into, merge_rule_draft}

pub record Row : Type 0 where
  pub body : Fields
  pub version : ℕ

pub record Tables : Type 0 where
  pub routes : Assoc Row
  pub rules : Assoc Row
  pub policies : Assoc Row
  pub drafts : List (ResKey × Json)
  -- "" while there has been no deployment
  pub baseline : String

-- The object that a row is encoded to.
unfoldable pub encode : Row → Fields
encode row = put "version" (num row.version) row.body

-- `patches`: the drafts that were selected.
unfoldable pub patches : List ResKey → List (ResKey × Json) → List (ResKey × Json)
patches keys [] = []
patches keys ((k, patch) ∷ rest) =
    let others = patches keys rest in if selected keys k then (k, patch) ∷ others else others

unfoldable pub patch_of : ResKey → List (ResKey × Json) → Option Json
patch_of k [] = none
patch_of k ((j, patch) ∷ rest) = if key_eq j k then some patch else patch_of k rest

-- One resource: its draft merged over it, if there is one.
unfoldable pub merge_one : (Fields → Json → Outcome Fields) → Option Json → Row → Outcome Fields
unfolding encode
merge_one merge none row = ok (encode row)
merge_one merge (some patch) row = merge (encode row) patch

-- The loop over the live resources of one kind.
unfoldable pub merge_rows :
    (String → ResKey)
    → (Fields → Json → Outcome Fields)
    → List (ResKey × Json)
    → Assoc Row
    → Outcome (Assoc Fields)
unfolding merge_one
merge_rows key merge drafts [] = ok []
merge_rows key merge drafts ((id, row) ∷ rest) =
    merge_one merge (patch_of (key id) drafts) row >>= λ merged.
    merge_rows key merge drafts rest >>= λ others. ok ((id, merged) ∷ others)

abbrev is_some : Option Row → Bool
is_some none = false
is_some (some _) = true

-- `used[k]`: the draft found its resource.
unfoldable pub has_base : Tables → ResKey → Bool
has_base t (route id) = is_some (lookup id t.routes)
has_base t (rule id) = is_some (lookup id t.rules)
has_base t (global id) = is_some (lookup id t.policies)
has_base t (other k) = false

-- The selected drafts without a resource; the source reports them in the order of their keys.
unfoldable pub orphans : Tables → List (ResKey × Json) → List ResKey
orphans t [] = []
orphans t ((k, patch) ∷ rest) =
    let others = orphans t rest in if has_base t k then others else k ∷ others

-- The name that a resource carries in itself: `r.Domain`, `r.ID`, `p.ID`.
unfoldable pub name_of : Option Json → String
name_of (some (str s)) = s
name_of _ = ""

-- `specs[id]` after the loop over the policies, from what it was before.
unfoldable pub spec_of : String → Option Json → Assoc Fields → Option Json
unfolding name_of
spec_of id before [] = before
spec_of id before ((_, p) ∷ rest) =
    spec_of id (if str_eq (name_of (get "id" p)) id then get "spec" p else before) rest

-- `effectiveConfig`, without the parsed policies, which are a function of two of the specs.
pub record Config : Type 0 where
  pub routes : Assoc Fields
  pub rules : Assoc Fields
  pub policies : Assoc Fields
  pub orphans : List ResKey

-- `effective`. `parses` says for which specs of "tls" and "log" `render.ParsePolicies` reports no error.
unfoldable pub effective :
    (Option Json → Option Json → Bool) → List ResKey → Tables → Outcome Config
unfolding patches merge_rows spec_of orphans
effective parses keys t =
    let drafts = patches keys t.drafts in
    merge_rows route merge_into drafts t.routes >>= λ routes.
    merge_rows rule merge_rule_draft drafts t.rules >>= λ rules.
    merge_rows global merge_into drafts t.policies >>= λ policies.
    if parses (spec_of "tls" none policies) (spec_of "log" none policies)
    then ok
        (record { routes = routes; rules = rules; policies = policies; orphans = orphans t drafts })
    else err
