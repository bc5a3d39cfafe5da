-- ===== src/Render/Config/Serves.antt =====
-- What the servers of a rendered configuration do with a request.
use edge_caddy.Prelude.{
  Bool, true, false, Option, none, some, List, [], ◌∷◌, ◌++◌, ◌≡◌, refl, subst, ap, ◌∙◌,
}
use edge_caddy.Render.Go.{Go}
use edge_caddy.Render.Resources.{Cert, Rule, Route}
use edge_caddy.Render.Caddy.{Handler, CaddyRoute, Caddy}
use edge_caddy.Render.Validate.{Issue, validate}
use edge_caddy.Render.Validate.Fresh.{append-[]}
use edge_caddy.Render.Validate.Sound.{validate-IsRenderable}
use edge_caddy.Render.Access.{Options, with_defaults, caddy_routes}
use edge_caddy.Render.Access.Spec.{decide}
use edge_caddy.Render.Access.Decision.{serve-caddy_routes}
use edge_caddy.Render.Policy.{Policies, ahead_of, response_header_handler, with_headers}
use edge_caddy.Render.Config.{
  Server, Config, Rendered, invalid, rendered, unless_invalid, render, tls_server, edge_server,
}

abbrev pub to_list : Option Handler → List Handler
to_list none = []
to_list (some h) = h ∷ []

module _ (go : Go) (caddy : Caddy) where
  serve-with_headers :
      (routes : List CaddyRoute) (pol : Policies) (tls : Bool) (q : caddy.Request)
      → caddy.serve (with_headers routes pol tls) q
        ≡ to_list (response_header_handler pol tls) ++ caddy.serve routes q
  unfolding with_headers
  serve-with_headers routes pol tls q = ahead (response_header_handler pol tls)
    where
      ahead :
          (h : Option Handler)
          → caddy.serve (ahead_of h routes) q ≡ to_list h ++ caddy.serve routes q
      ahead none = refl
      ahead (some h) = caddy.serve-passing _ routes q refl refl

  -- What a server does with a request: the policy's headers, and then what the access rules decide.
  abbrev pub treat :
      Options → List Route → List Rule → Policies → Bool → caddy.Request → List Handler
  treat opt routes rules pol tls q =
      to_list (response_header_handler pol tls)
      ++ decide go caddy (with_defaults opt) (go.sort_rules rules) (go.sort_routes routes) q

  serve-routes :
      (opt : Options) (routes : List Route) (rules : List Rule) (pol : Policies) (tls : Bool)
      (q : caddy.Request)
      → validate go routes rules ≡ []
      → caddy.serve (with_headers (caddy_routes go opt routes rules) pol tls) q
        ≡ treat opt routes rules pol tls q
  serve-routes opt routes rules pol tls q clean =
      serve-with_headers (caddy_routes go opt routes rules) pol tls q
      ∙ ap (λ l. to_list (response_header_handler pol tls) ++ l)
          (serve-caddy_routes go caddy opt routes rules q
            (validate-IsRenderable go routes rules clean))

  -- A server that is there serves the request as described.
  abbrev pub Serves : Option Server → caddy.Request → List Handler → Type 0
  Serves none q handlers = Unit
  Serves (some s) q handlers = caddy.serve s.routes q ≡ handlers

  -- The configuration that `render` makes.
  unless_invalid-rendered :
      (issues : List Issue) (made cfg : Config)
      → unless_invalid go issues made ≡ rendered cfg
      → (issues ≡ []) × (made ≡ cfg)
  unless_invalid-rendered [] made cfg done = (refl, ap (config_or made) done)
    where
      config_or : Config → Rendered → Config
      config_or c (invalid is) = c
      config_or c (rendered d) = d
  unless_invalid-rendered (i ∷ is) made cfg done = cc

  tls_server-Serves :
      (opt : Options) (certs : List Cert) (routes : List CaddyRoute) (pol : Policies)
      (q : caddy.Request) (handlers : List Handler)
      → caddy.serve (with_headers routes pol true) q ≡ handlers
      → Serves (tls_server go opt certs routes pol) q handlers
  unfolding tls_server
  tls_server-Serves opt [] routes pol q handlers served = tt
  tls_server-Serves opt (_ ∷ _) routes pol q handlers served = served

  -- If the resources and the policies render to a configuration, then each of its servers does with a
  -- request what the access rules decide, behind the policy's response headers for that server: the
  -- first route, by domain, that the host belongs to lets the request through to its handlers or
  -- blocks it in its own way, and a request for no known host is cut off.
  pub render-Serves :
      (routes : List Route) (rules : List Rule) (certs : List Cert) (pol : Policies) (opt : Options)
      (cfg : Config) (q : caddy.Request)
      → render go routes rules certs pol opt ≡ rendered cfg
      → Serves (some cfg.edge) q (treat opt routes rules pol false q)
        × Serves cfg.edge_tls q (treat opt routes rules pol true q)
  unfolding render edge_server
  render-Serves routes rules certs pol opt cfg q done =
      let parts = unless_invalid-rendered _ _ cfg done in
      let clean = (append-[] _ _ parts.0).0 in
      subst
        (λ c.
          Serves (some c.edge) q (treat opt routes rules pol false q)
          × Serves c.edge_tls q (treat opt routes rules pol true q))
        parts.1
        (
          serve-routes opt routes rules pol false q clean,
          tls_server-Serves opt certs _ pol q _ (serve-routes opt routes rules pol true q clean),
        )
