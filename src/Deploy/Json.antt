-- ===== src/Deploy/Json.antt =====
-- JSON values, as encoding/json reads them: a `json.RawMessage` is the value that it stands for, and
-- an object is a `map[string]json.RawMessage`. The numbers of the resources are never negative.
pub mod Laws
use edge_caddy.Prelude.{ℕ, Bool, String, Option, none, some, ◌≡◌, str_eq, if◌then◌else◌}

mutual
  pub data Json : Type 0 where
    null : Json
    bool : Bool → Json
    num : ℕ → Json
    str : String → Json
    arr : Items → Json
    obj : Fields → Json

  pub data Items : Type 0 where
    nil : Items
    cons : Json → Items → Items

  pub data Fields : Type 0 where
    end : Fields
    field : String → Json → Fields → Fields

-- `v, ok := m[k]`
unfoldable pub get : String → Fields → Option Json
get k end = none
get k (field j v m) = if str_eq j k then some v else get k m

-- `m[k] = v`
unfoldable pub put : String → Json → Fields → Fields
put k v end = field k v end
put k v (field j w m) = if str_eq j k then field j v m else field j w (put k v m)

-- A map holds a key once.
abbrev pub Distinct : Fields → Type 0
Distinct end = Unit
Distinct (field k v m) = (get k m ≡ none) × Distinct m
