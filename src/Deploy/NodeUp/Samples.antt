-- ===== src/Deploy/NodeUp/Samples.antt =====
-- A node that comes up while there is a baseline of an empty configuration.
use edge_caddy.Prelude.{true, List, [], ◌∷◌, ◌≡◌, refl, ◌⊎◌}
use edge_caddy.Deploy.Merge.{ok}
use edge_caddy.Deploy.Effective.{Tables, Config, effective, patches, merge_rows, orphans, spec_of}
use edge_caddy.Deploy.Retry.{applied}
use edge_caddy.Deploy.NodeUp.{
  World, Action, sent, attached, node_up, repush_node, then_attach, answered,
}
use edge_caddy.Deploy.NodeUp.Ordered.{attach-IsReady}

abbrev tables : Tables
tables = record { routes = []; rules = []; policies = []; drafts = []; baseline = "v0001" }

abbrev world : World
world = record {
  parses = λ tls log. true;
  baseline_read = true;
  certs_read = true;
  issues = λ c. [];
  push = applied;
  dns_configured = true;
  attach = attached;
}

attach-IsReady_example :
    (tables.baseline ≡ "")
    ⊎ ((c : Config) × (rest : List Action) × (effective world.parses [] tables ≡ ok c)
        × (node_up world tables true ≡ sent "v0001" c applied ∷ rest))
unfolding node_up repush_node then_attach answered effective patches merge_rows orphans spec_of
attach-IsReady_example = attach-IsReady world tables true refl
