-- ===== src/Render/BodyMax.antt =====
-- internal/render/render.go: `parseBodyMax`, the size of a request's body.
use edge_caddy.Prelude.{ℕ, ◌^◌, String, str_eq, Option, none, some, if◌then◌else◌}
use edge_caddy.Render.Go.{Go}

-- What the unit stands for, without its `B`.
unfoldable pub multiple_of : String → ℕ
multiple_of unit =
    if str_eq unit "K"
    then 2 ^ 10
    else if str_eq unit "M"
    then 2 ^ 20
    else if str_eq unit "G"
    then 2 ^ 30
    else if str_eq unit "T"
    then 2 ^ 40
    else 1

module _ (go : Go) where
  unfoldable pub parse_body_max : String → Option ℕ
  unfolding multiple_of
  parse_body_max s = elim (go.body_max_groups s) [
    | none ↦ none
    | some (number, unit) ↦ go.scaled number (multiple_of (go.trim_b unit))
  ]
