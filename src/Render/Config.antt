-- ===== src/Render/Config.antt =====
-- internal/render/render.go: `Render`, the configuration of a node.
pub mod Serves
pub mod Switch
use edge_caddy.Prelude.{Bool, true, false, String, Option, none, some, List, [], ◌∷◌, ◌++◌}
use edge_caddy.Render.Go.{Go}
use edge_caddy.Render.Resources.{Cert, Rule, Route}
use edge_caddy.Render.Caddy.{CaddyRoute}
use edge_caddy.Render.Validate.{Issue, validate}
use edge_caddy.Render.Access.{Options, with_defaults, caddy_routes}
use edge_caddy.Render.Policy.{
  Policies, LogSink, validate_policies, tls_protocol_min, server_protocols, with_headers,
  logging_app,
}

-- A server; without `protocols` Caddy takes its own. What is the same for every server is left out:
-- metrics and access logs on, automatic HTTPS off.
pub record Server : Type 0 where
  pub listen : String
  pub protocols : Option (List String)
  pub routes : List CaddyRoute
  pub protocol_min : Option String

pub record Config : Type 0 where
  pub edge : Server
  pub edge_tls : Option Server
  pub logging : List LogSink
  -- `load_pem`
  pub load_pem : List Cert

pub data Rendered : Type 0 where
  invalid : List Issue → Rendered
  rendered : Config → Rendered

module _ (go : Go) where
  -- The server on :80.
  unfoldable pub edge_server : Options → List CaddyRoute → Policies → Server
  unfolding with_headers server_protocols with_defaults
  edge_server opt routes pol = record {
    listen = (with_defaults opt).http_listen;
    protocols = some (server_protocols pol false);
    routes = with_headers routes pol false;
    protocol_min = none;
  }

  -- The server on :443, if there is a certificate.
  unfoldable pub tls_server : Options → List Cert → List CaddyRoute → Policies → Option Server
  unfolding with_headers tls_protocol_min with_defaults
  tls_server opt [] routes pol = none
  tls_server opt (_ ∷ _) routes pol = some (record {
    listen = (with_defaults opt).https_listen;
    protocols = none;
    routes = with_headers routes pol true;
    protocol_min = some (tls_protocol_min pol.tls.min_version);
  })

  abbrev pub unless_invalid : List Issue → Config → Rendered
  unless_invalid [] config = rendered config
  unless_invalid (i ∷ is) config = invalid (i ∷ is)

  -- `Render`; without a certificate there is no `tls` app.
  unfoldable pub render : List Route → List Rule → List Cert → Policies → Options → Rendered
  unfolding edge_server tls_server logging_app validate_policies validate caddy_routes with_defaults
  render routes rules certs pol opt =
      let all = caddy_routes go opt routes rules in
      unless_invalid (validate go routes rules ++ validate_policies pol) (record {
        edge = edge_server opt all pol;
        edge_tls = tls_server opt certs all pol;
        logging = logging_app pol (with_defaults opt).log_dir;
        load_pem = go.sort_certs certs;
      })
