-- ===== src/Deploy/Support/Samples.antt =====
-- A rate limit and a fleet that knows it.
use edge_caddy.Prelude.{true, false, [], ◌∷◌}
use edge_caddy.Prelude.Assoc.{Assoc}
use edge_caddy.Deploy.Json.{bool, str, arr, nil, cons, Fields, end, field}
use edge_caddy.Deploy.Support.{Node}

abbrev limit : Fields
limit =
    field "type" (str "rate_limit")
      (field "enabled" (bool true) (field "apply_to" (arr (cons (str "shop.example") nil)) end))

abbrev rules : Assoc Fields
rules = ("r1", limit) ∷ []

abbrev new_agent : Node
new_agent = record {
  id = "hk-1";
  is_drained = false;
  verify_kinds = "service_secret" ∷ "rate_limit" ∷ [];
}

abbrev old_drained : Node
old_drained = record { id = "hk-0"; is_drained = true; verify_kinds = [] }
