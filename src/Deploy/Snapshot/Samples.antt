-- ===== src/Deploy/Snapshot/Samples.antt =====
-- Rollbacks of concrete resources.
use edge_caddy.Prelude.{true, false, some, ◌≡◌, refl}
use edge_caddy.Deploy.Json.{bool, num, str, obj, Fields, end, field, get, put}
use edge_caddy.Deploy.Merge.{ok, changes_type, merge_fields, merge_draft, merge_rule_draft}
use edge_caddy.Deploy.Keys.{rule}
use edge_caddy.Deploy.Snapshot.{field_diff, json_equal, same_as, size}
use edge_caddy.Deploy.Snapshot.Rollback.{IsRestored, flat_rollback, rollback_keeps_extra}

abbrev old_route : Fields
old_route =
    field "upstream" (str "10.0.0.1:80")
      (field "compress" (bool true) (field "version" (num 3) end))

abbrev live_route : Fields
live_route =
    field "upstream" (str "10.0.0.2:80")
      (field "compress" (bool true) (field "version" (num 4) end))

route_patch : field_diff live_route old_route ≡ field "upstream" (str "10.0.0.1:80") end
unfolding field_diff same_as json_equal get
route_patch = refl

flat_rollback_example :
    (m : Fields) × (merge_fields (field_diff live_route old_route) live_route ≡ ok m)
    × IsRestored (str "10.0.0.1:80") (get "upstream" live_route) (get "upstream" m)
unfolding get
flat_rollback_example =
    flat_rollback live_route old_route "upstream" (str "10.0.0.1:80") (refl, (refl, (refl, tt)))
      (refl, (refl, (refl, tt))) (refl, (refl, (refl, tt))) refl refl

-- A service secret rule: replay protection was off (the field is left out when it is false), and has
-- been switched on since.
abbrev old_spec : Fields
old_spec = field "header" (str "X-Auth") end

abbrev live_spec : Fields
live_spec = field "header" (str "X-Auth") (field "replay_protection" (bool true) end)

abbrev old_rule : Fields
old_rule = field "type" (str "service_secret") (field "spec" (obj old_spec) end)

abbrev live_rule : Fields
live_rule = field "type" (str "service_secret") (field "spec" (obj live_spec) end)

-- The rollback leaves the rule as it is: replay protection stays on.
rollback_keeps_extra_example :
    (mc : Fields) × (get "spec" live_rule ≡ some (obj mc))
    × (get "replay_protection" mc ≡ some (bool true))
unfolding get json_equal field_diff same_as changes_type merge_draft merge_rule_draft merge_fields
    put size
rollback_keeps_extra_example =
    rollback_keeps_extra (rule "hook") live_rule old_rule live_rule live_spec old_spec "spec"
      "replay_protection" (bool true) false (refl, (refl, tt)) (refl, tt) refl refl refl refl refl
      refl refl refl
