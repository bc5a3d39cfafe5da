-- ===== src/Render/Access/Decision.antt =====
-- What the rendered routes do with a request, against an independent description of the access rules.
use edge_caddy.Prelude.{
  Bool, true, false, not, ◌&&◌, List, [], ◌∷◌, ◌++◌, ◌≡◌, refl, sym, ap, ◌∙◌, if◌then◌else◌,
  Bool-cases, inl, inr, All,
}
use edge_caddy.Render.Go.{Go}
use edge_caddy.Render.Resources.{Rule, Route}
use edge_caddy.Render.Caddy.{Handler, abort, CaddyRoute, Caddy}
use edge_caddy.Render.Access.Applied.{rules_of-All}
use edge_caddy.Render.Access.{
  Options, with_defaults, block_handler, deny_route, proxy_handlers, proxy_route, rules_of,
  deny_routes, routes_loop, fallback, caddy_routes,
}
use edge_caddy.Render.Access.Spec.{HasKnownFilters, IsRenderable, rules_admit, route_admits, decide}
use edge_caddy.Render.Access.Denials.{blocked_or, append_assoc, serve-deny_routes, serve-deny_route}

module _ (go : Go) (caddy : Caddy) where
  serve-proxy_route :
      (opt : Options) (r : Route) (rules : List Rule) (rest : List CaddyRoute) (q : caddy.Request)
      → caddy.serve (proxy_route go opt r rules ∷ rest) q ≡ (
          if caddy.host_matches r.domain q
          then proxy_handlers go opt r rules
          else caddy.serve rest q)
  unfolding proxy_route
  serve-proxy_route opt r rules rest q = elim (Bool-cases (caddy.host_matches r.domain q)) [
    | inl hit ↦
        rw hit (caddy.serve-terminal _ rest q (rw (caddy.holds-host r.domain q, hit) refl) refl)
    | inr miss ↦
        rw miss (caddy.serve-unmatched _ rest q (rw (caddy.holds-host r.domain q, miss) refl))
  ]

  serve-fallback : (q : caddy.Request) → caddy.serve (fallback go ∷ []) q ≡ abort ∷ []
  serve-fallback q = caddy.serve-terminal (fallback go) [] q refl refl

  -- The blocks of a route and its own handlers, in order, come to one decision.
  one_decision :
      (r : Route) (h a b : Bool) (handlers later : List Handler)
      → blocked_or go caddy r
          (h && not a)
          (blocked_or go caddy r (h && not b) (if h then handlers else later))
        ≡ (if h then (if a && b then handlers else block_handler r.block_mode ∷ []) else later)
  one_decision r true true true handlers later = refl
  one_decision r true true false handlers later = refl
  one_decision r true false b handlers later = refl
  one_decision r false a b handlers later = refl

  serve-one_route :
      (opt : Options) (r : Route) (applied : List Rule) (rest : List CaddyRoute) (q : caddy.Request)
      → All (HasKnownFilters go) applied
      → caddy.serve
          ((deny_routes go r applied ++ (deny_route go r ++ (proxy_route go opt r applied ∷ [])))
            ++ rest)
          q
        ≡ (if caddy.host_matches r.domain q
            then if rules_admit go caddy applied q && route_admits go caddy r q
              then proxy_handlers go opt r applied
              else block_handler r.block_mode ∷ []
            else caddy.serve rest q)
  serve-one_route opt r applied rest q known =
      let proxy = proxy_route go opt r applied ∷ [] in
      let h = caddy.host_matches r.domain q in
      ap (λ l. caddy.serve l q)
        (append_assoc go caddy (deny_routes go r applied) (deny_route go r ++ proxy) rest)
      ∙ serve-deny_routes go caddy r applied ((deny_route go r ++ proxy) ++ rest) q known
      ∙ ap (blocked_or go caddy r (h && not (rules_admit go caddy applied q))) (
          ap (λ l. caddy.serve l q) (append_assoc go caddy (deny_route go r) proxy rest)
          ∙ serve-deny_route go caddy r (proxy ++ rest) q
          ∙ ap (blocked_or go caddy r (h && not (route_admits go caddy r q)))
              (serve-proxy_route opt r applied rest q))
      ∙ one_decision r h (rules_admit go caddy applied q) (route_admits go caddy r q)
          (proxy_handlers go opt r applied) (caddy.serve rest q)

  routes_loop_split :
      (opt : Options) (rules : List Rule) (r : Route) (rs : List Route)
      → routes_loop go opt rules (r ∷ rs) ++ fallback go ∷ []
        ≡ (deny_routes go r (rules_of go r.domain rules)
            ++ (deny_route go r ++ (proxy_route go opt r (rules_of go r.domain rules) ∷ [])))
          ++ (routes_loop go opt rules rs ++ fallback go ∷ [])
  unfolding routes_loop
  routes_loop_split opt rules r rs =
      let d = deny_routes go r (rules_of go r.domain rules) in
      let w = deny_route go r in
      let p = proxy_route go opt r (rules_of go r.domain rules) in
      let later = routes_loop go opt rules rs in
      let end = fallback go ∷ [] in
      append_assoc go caddy d (w ++ p ∷ later) end
      ∙ ap (λ l. d ++ l) (append_assoc go caddy w (p ∷ later) end)
      ∙ ap (λ l. d ++ l) (sym (append_assoc go caddy w (p ∷ []) (later ++ end)))
      ∙ sym (append_assoc go caddy d (w ++ p ∷ []) (later ++ end))

  serve-routes_loop :
      (opt : Options) (rules : List Rule) (rs : List Route) (q : caddy.Request)
      → All (IsRenderable go) rules
      → caddy.serve (routes_loop go opt rules rs ++ fallback go ∷ []) q
        ≡ decide go caddy opt rules rs q
  serve-routes_loop opt rules [] q known = unfold routes_loop in serve-fallback q
  serve-routes_loop opt rules (r ∷ rs) q known =
      ap (λ l. caddy.serve l q) (routes_loop_split opt rules r rs)
      ∙ serve-one_route opt r (rules_of go r.domain rules)
          (routes_loop go opt rules rs ++ fallback go ∷ []) q
          (rules_of-All go (HasKnownFilters go) r.domain rules known)
      ∙ rw (serve-routes_loop opt rules rs q known) refl

  -- A request that Caddy serves with the rendered routes goes where the access rules send it: to the
  -- first route, by domain, that its host belongs to. If the rules bound to the domain and the
  -- whitelist let the request through, it runs through the handlers of the route, and otherwise it
  -- is blocked in the route's way; a request for no known host is cut off.
  pub serve-caddy_routes :
      (opt : Options) (routes : List Route) (rules : List Rule) (q : caddy.Request)
      → All (IsRenderable go) (go.sort_rules rules)
      → caddy.serve (caddy_routes go opt routes rules) q
        ≡ decide go caddy (with_defaults opt) (go.sort_rules rules) (go.sort_routes routes) q
  unfolding caddy_routes
  serve-caddy_routes opt routes rules q known =
      serve-routes_loop (with_defaults opt) (go.sort_rules rules) (go.sort_routes routes) q known
