-- ===== src/Render/Validate/Sound.antt =====
-- What an empty list of issues says of the resources together.
use edge_caddy.Prelude.{List, [], ◌≡◌, All, All-map}
use edge_caddy.Render.Go.{Go}
use edge_caddy.Render.Resources.{Rule, Route}
use edge_caddy.Render.Validate.{domains_of, validate}
use edge_caddy.Render.Validate.Fresh.{IsUnique, Fresh-IsUnique, append-[]}
use edge_caddy.Render.Validate.SoundRoutes.{IsSoundRoute, routes_issues-[]}
use edge_caddy.Render.Validate.SoundRules.{live, ids_of, IsSoundRule, live-All, rules_issues-[]}
use edge_caddy.Render.Access.Spec.{HasKnownFilters, IsRenderable}

module _ (go : Go) where
  -- Resources without an issue are sound: no two routes have one domain, each route has a domain and
  -- an upstream in the right form and a whitelist of addresses, no two live rules have one ID, and
  -- each live rule applies to domains that have a route and has filters that can be matched.
  pub validate-IsSound :
      (routes : List Route) (rules : List Rule)
      → validate go routes rules ≡ []
      → IsUnique (domains_of go routes)
        × (All (IsSoundRoute go) routes
            × (IsUnique (ids_of go (live go rules))
                × All (IsSoundRule go (domains_of go routes)) (live go rules)))
  unfolding validate
  validate-IsSound routes rules clean =
      let both = append-[] _ _ clean in
      let of_routes = routes_issues-[] go [] routes both.0 in
      let of_rules = rules_issues-[] go [] (domains_of go routes) rules both.1 in
      (
        Fresh-IsUnique [] (domains_of go routes) of_routes.0,
        (of_routes.1, (Fresh-IsUnique [] (ids_of go (live go rules)) of_rules.0, of_rules.1)),
      )

  pub validate-IsRenderable :
      (routes : List Route) (rules : List Rule)
      → validate go routes rules ≡ []
      → All (IsRenderable go) (go.sort_rules rules)
  validate-IsRenderable routes rules clean = go.sort_rules-All (IsRenderable go) rules (
      live-All go (HasKnownFilters go) rules (
        All-map (λ rule sound. sound.1) (live go rules)
          (validate-IsSound routes rules clean).1.1.1))
