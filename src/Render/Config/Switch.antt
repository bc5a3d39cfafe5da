-- ===== src/Render/Config/Switch.antt =====
-- The switch for HTTP/3 of the TLS policy.
use edge_caddy.Prelude.{Bool, List, [], ◌∷◌, ◌≡◌, refl}
use edge_caddy.Render.Go.{Go}
use edge_caddy.Render.Resources.{Cert, Rule, Route}
use edge_caddy.Render.Access.{Options}
use edge_caddy.Render.Policy.{Policies, validate_policies, server_protocols}
use edge_caddy.Render.Config.{edge_server, tls_server, render}

abbrev pub with_http3 : Bool → Policies → Policies
with_http3 on pol = record pol { tls = record pol.tls { http3 = on } }

-- The switch changes nothing in what is rendered.
pub http3_ignored :
    (go : Go) (routes : List Route) (rules : List Rule) (certs : List Cert) (pol : Policies)
    (opt : Options) (on : Bool)
    → render go routes rules certs (with_http3 on pol) opt ≡ render go routes rules certs pol opt
unfolding render edge_server tls_server server_protocols validate_policies
http3_ignored go routes rules [] pol opt on = refl
http3_ignored go routes rules (c ∷ cs) pol opt on = refl
