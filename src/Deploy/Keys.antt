-- ===== src/Deploy/Keys.antt =====
-- Resource keys: the strings `route:<domain>`, `rule:<id>` and `global:<id>`, and any other string.
use edge_caddy.Prelude.{Bool, false, ◌||◌, String, List, [], ◌∷◌, str_eq}

pub data ResKey : Type 0 where
  route : String → ResKey
  rule : String → ResKey
  global : String → ResKey
  other : String → ResKey

unfoldable pub key_eq : ResKey → ResKey → Bool
key_eq (route a) (route b) = str_eq a b
key_eq (rule a) (rule b) = str_eq a b
key_eq (global a) (global b) = str_eq a b
key_eq (other a) (other b) = str_eq a b
key_eq _ _ = false

-- `selected[k]`
unfoldable pub selected : List ResKey → ResKey → Bool
selected [] k = false
selected (j ∷ js) k = key_eq j k || selected js k
