-- ===== src/Deploy/Snapshot.antt =====
-- internal/deploy/snapshot.go: the drafts that take the live resources back to a snapshot. A resource
-- stands under its domain or id, as the object that it is encoded to (a rule's shared secret is not
-- part of that object). A table never holds an id twice.
pub mod Rollback
mod Samples
use edge_caddy.Prelude.{
  ℕ, suc, Bool, true, false, not, ◌&&◌, ◌==◌, String, Option, none, some, List, [], ◌∷◌, ◌++◌,
  str_eq, if◌then◌else◌,
}
use edge_caddy.Prelude.Assoc.{Assoc, lookup}
use edge_caddy.Deploy.Keys.{ResKey, route, rule}
use edge_caddy.Deploy.Json.{
  Json, null, bool, num, str, arr, obj, Items, nil, cons, Fields, end, field, get,
}

pub data Reason : Type 0 where
  deleted_since created_since : Reason

pub record Skipped : Type 0 where
  pub res_key : ResKey
  pub reason : Reason

pub record Snapshot : Type 0 where
  pub routes : Assoc Fields
  pub rules : Assoc Fields

abbrev bool_eq : Bool → Bool → Bool
bool_eq true b = b
bool_eq false b = not b

unfoldable pub size : Fields → ℕ
size end = 0
size (field k v m) = suc (size m)

-- `jsonEqual`: `reflect.DeepEqual` of the decoded values. Two maps are equal if they have as many keys
-- and each key of the first has an equal value in the second.
unfoldable mutual
  pub json_equal : Json → Json → Bool
  json_equal null null = true
  json_equal (bool a) (bool b) = bool_eq a b
  json_equal (num a) (num b) = a == b
  json_equal (str a) (str b) = str_eq a b
  json_equal (arr xs) (arr ys) = items_equal xs ys
  json_equal (obj a) (obj b) = size a == size b && fields_within a b
  json_equal _ _ = false

  pub items_equal : Items → Items → Bool
  items_equal nil nil = true
  items_equal (cons x xs) (cons y ys) = json_equal x y && items_equal xs ys
  items_equal _ _ = false

  pub fields_within : Fields → Fields → Bool
  fields_within end b = true
  fields_within (field k v rest) b = found_equal v (get k b) && fields_within rest b

  pub found_equal : Json → Option Json → Bool
  found_equal null (some null) = true
  found_equal (bool a) (some (bool b)) = bool_eq a b
  found_equal (num a) (some (num b)) = a == b
  found_equal (str a) (some (str b)) = str_eq a b
  found_equal (arr xs) (some (arr ys)) = items_equal xs ys
  found_equal (obj a) (some (obj b)) = size a == size b && fields_within a b
  found_equal _ _ = false

-- `ok && jsonEqual(cv, wv)` for `cv, ok := curMap[k]`
unfoldable pub same_as : Option Json → Json → Bool
same_as none wanted = false
same_as (some cur) wanted = json_equal cur wanted

-- `fieldDiff`: the fields of `want` that `cur` has not, or has otherwise. `end` is the empty patch.
unfoldable pub field_diff : Fields → Fields → Fields
field_diff cur end = end
field_diff cur (field k v rest) =
    let others = field_diff cur rest in
    if str_eq k "version"
    then others
    else if same_as (get k cur) v
    then others
    else field k v others

abbrev is_empty : Fields → Bool
is_empty end = true
is_empty (field _ _ _) = false

abbrev pub Drafts : Type 0
Drafts = List (ResKey × Fields)

-- One resource of the snapshot, given what is live under its id.
unfoldable pub diff_one : ResKey → Fields → Option Fields → Drafts × List Skipped
diff_one key want none = ([], (record { res_key = key; reason = deleted_since }) ∷ [])
diff_one key want (some cur) =
    let patch = field_diff cur want in (if is_empty patch then [] else (key, patch) ∷ [], [])

-- The loop over the snapshot's resources of one kind.
unfoldable pub diff_wanted : (String → ResKey) → Assoc Fields → Assoc Fields → Drafts × List Skipped
unfolding diff_one
diff_wanted key [] live = ([], [])
diff_wanted key ((id, want) ∷ rest) live =
    let (patches, skipped) = diff_one (key id) want (lookup id live) in
    let (patches', skipped') = diff_wanted key rest live in
    (patches ++ patches', skipped ++ skipped')

abbrev is_none : Option Fields → Bool
is_none none = true
is_none (some _) = false

-- The loop over the live resources that the snapshot does not have.
unfoldable pub created_after : (String → ResKey) → Assoc Fields → Assoc Fields → List Skipped
created_after key snap [] = []
created_after key snap ((id, _) ∷ rest) =
    let others = created_after key snap rest in
    if is_none (lookup id snap)
    then (record { res_key = key id; reason = created_since }) ∷ others
    else others

-- `diffToDrafts`
unfoldable pub diff_to_drafts : Snapshot → Assoc Fields → Assoc Fields → Drafts × List Skipped
unfolding diff_wanted created_after
diff_to_drafts snap live_routes live_rules =
    let (route_patches, route_skipped) = diff_wanted route snap.routes live_routes in
    let (rule_patches, rule_skipped) = diff_wanted rule snap.rules live_rules in
    (
      route_patches ++ rule_patches,
      (route_skipped ++ created_after route snap.routes live_routes)
          ++ (rule_skipped ++ created_after rule snap.rules live_rules),
    )
