-- ===== src/Render/Validate/SoundRoutes.antt =====
-- What holds of the routes that have no issue.
use edge_caddy.Prelude.{ℕ, ◌+◌, true, false, String, List, [], ◌∷◌, ◌≡◌, has, All}
use edge_caddy.Render.Go.{Go}
use edge_caddy.Render.Resources.{Route}
use edge_caddy.Render.Validate.{
  is_cidr_or_ip, is_upstream, address_issues, route_issues, routes_issues, domains_of,
}
use edge_caddy.Render.Validate.Fresh.{Fresh, append-[], require-[], is_false, and_true}

module _ (go : Go) where
  abbrev pub IsSoundRoute : Route → Type 0
  IsSoundRoute r =
      (go.is_domain r.domain ≡ true)
      × (is_upstream go r.upstream ≡ true)
      × All (λ e. is_cidr_or_ip go e ≡ true) r.whitelist

  address_issues-All :
      (key field : String) (i : ℕ) (es : List String)
      → address_issues go key field i es ≡ []
      → All (λ e. is_cidr_or_ip go e ≡ true) es
  unfolding address_issues
  address_issues-All key field i [] clean = tt
  address_issues-All key field i (e ∷ es) clean =
      let both = append-[] _ _ clean in
      (require-[] _ _ _ both.0, address_issues-All key field (i + 1) es both.1)

  route_issues-[] :
      (seen : List String) (r : Route)
      → route_issues go seen r ≡ []
      → (has r.domain seen ≡ false) × IsSoundRoute r
  unfolding route_issues
  route_issues-[] seen r clean =
      let first = append-[] _ _ clean in
      let second = append-[] _ _ first.1 in
      let third = append-[] _ _ second.1 in
      let fourth = append-[] _ _ third.1 in
      let domain = and_true _ _ (and_true _ _ (require-[] _ _ _ first.0)).1 in
      (
        is_false _ domain.1,
        (domain.0, require-[] _ _ _ second.0, address_issues-All _ _ 0 r.whitelist fourth.1),
      )

  pub routes_issues-[] :
      (seen : List String) (rs : List Route)
      → routes_issues go seen rs ≡ []
      → Fresh seen (domains_of go rs) × All IsSoundRoute rs
  unfolding routes_issues
  routes_issues-[] seen [] clean = (tt, tt)
  routes_issues-[] seen (r ∷ rs) clean =
      let both = append-[] _ _ clean in
      let one = route_issues-[] seen r both.0 in
      let rest = routes_issues-[] (r.domain ∷ seen) rs both.1 in ((one.0, rest.0), (one.1, rest.1))
