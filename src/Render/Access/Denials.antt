-- ===== src/Render/Access/Denials.antt =====
-- What the routes that block do with a request.
use edge_caddy.Prelude.{
  Bool, true, false, not, ◌&&◌, ◌||◌, String, str_eq, Option, none, some, List, [], ◌∷◌, ◌++◌, ◌≡◌,
  refl, sym, ap, ◌∙◌, if◌then◌else◌, Bool-cases, inl, inr, All,
}
use edge_caddy.Render.Go.{Go}
use edge_caddy.Render.Resources.{Filter, Rule, Route}
use edge_caddy.Render.Caddy.{
  Condition, host, remote_ip, not_remote_ip, Handler, CaddyRoute, Caddy, any_set, matched,
}
use edge_caddy.Render.Access.{
  block_handler, normalize_ranges, deny_route, filter_condition, filter_matchers, if_any, deny,
  rule_deny_route, deny_routes,
}
use edge_caddy.Render.Access.Spec.{
  is_known, all_known, HasKnownFilters, or_empty, holds_at, any_filter, rule_admits, rules_admit,
  route_admits,
}

module _ (go : Go) (caddy : Caddy) where
  serve-deny :
      (r : Route) (sets : List (List Condition)) (rest : List CaddyRoute) (q : caddy.Request)
      → caddy.serve (deny go r sets ++ rest) q ≡ (
          if matched caddy.holds sets q
          then block_handler r.block_mode ∷ []
          else caddy.serve rest q)
  serve-deny r sets rest q = elim (Bool-cases (matched caddy.holds sets q)) [
    | inl hit ↦ rw hit (caddy.serve-terminal _ rest q hit refl)
    | inr miss ↦ rw miss (caddy.serve-unmatched _ rest q miss)
  ]

  serve-one_set :
      (r : Route) (c : Condition) (refuses : Bool) (rest : List CaddyRoute) (q : caddy.Request)
      → caddy.holds c q ≡ refuses
      → caddy.serve (deny go r ((host (r.domain ∷ []) ∷ c ∷ []) ∷ []) ++ rest) q ≡ (
          if caddy.host_matches r.domain q && refuses
          then block_handler r.block_mode ∷ []
          else caddy.serve rest q)
  serve-one_set r c refuses rest q same =
      serve-deny r ((host (r.domain ∷ []) ∷ c ∷ []) ∷ []) rest q
      ∙ ap (λ b. if b then block_handler r.block_mode ∷ [] else caddy.serve rest q)
          (rw (caddy.holds-host r.domain q, same) (one_set (caddy.host_matches r.domain q) refuses))
    where
      one_set : (h b : Bool) → ((h && (b && true)) || false) ≡ h && b
      one_set true true = refl
      one_set true false = refl
      one_set false b = refl

  any_set-filter_matchers :
      (domain : String) (fs : List Filter) (q : caddy.Request)
      → any_set caddy.holds (filter_matchers go domain fs) q
        ≡ caddy.host_matches domain q && any_filter go caddy fs q
  unfolding filter_matchers
  any_set-filter_matchers domain [] q = never (caddy.host_matches domain q)
    where
      never : (h : Bool) → false ≡ h && false
      never true = refl
      never false = refl
  any_set-filter_matchers domain (f ∷ fs) q =
      one (filter_condition go f) (any_set-filter_matchers domain fs q)
    where
      distributes : (h c r : Bool) → ((h && (c && true)) || (h && r)) ≡ h && (c || r)
      distributes true true r = refl
      distributes true false r = refl
      distributes false c r = refl

      one :
          (o : Option Condition)
          → any_set caddy.holds (filter_matchers go domain fs) q
            ≡ caddy.host_matches domain q && any_filter go caddy fs q
          → any_set caddy.holds
              (elim o [
                | none ↦ filter_matchers go domain fs
                | some c ↦ (host (domain ∷ []) ∷ c ∷ []) ∷ filter_matchers go domain fs
              ])
              q
            ≡ caddy.host_matches domain q && (holds_at go caddy o q || any_filter go caddy fs q)
      one none h = h
      one (some c) h =
          rw (caddy.holds-host domain q, h)
            (distributes (caddy.host_matches domain q) (caddy.holds c q) (any_filter go caddy fs q))

  matched-filter_matchers :
      (domain : String) (f : Filter) (fs : List Filter) (q : caddy.Request)
      → all_known go (f ∷ fs) ≡ true
      → matched caddy.holds (filter_matchers go domain (f ∷ fs)) q
        ≡ any_set caddy.holds (filter_matchers go domain (f ∷ fs)) q
  unfolding filter_matchers
  matched-filter_matchers domain f fs q known = one (filter_condition go f) known
    where
      one :
          (o : Option Condition)
          → (is_known o && all_known go fs) ≡ true
          → matched caddy.holds
              (elim o [
                | none ↦ filter_matchers go domain fs
                | some c ↦ (host (domain ∷ []) ∷ c ∷ []) ∷ filter_matchers go domain fs
              ])
              q
            ≡ any_set caddy.holds
                (elim o [
                  | none ↦ filter_matchers go domain fs
                  | some c ↦ (host (domain ∷ []) ∷ c ∷ []) ∷ filter_matchers go domain fs
                ])
                q
      one none h = cc
      one (some c) h = refl

  -- What a block does where it applies.
  abbrev pub blocked_or : Route → Bool → List Handler → List Handler
  blocked_or r b rest = if b then block_handler r.block_mode ∷ [] else rest

  module _ (r : Route) (rest : List CaddyRoute) (q : caddy.Request) where
    pub nothing_denied :
        (h : Bool) → caddy.serve rest q ≡ blocked_or r (h && false) (caddy.serve rest q)
    nothing_denied true = refl
    nothing_denied false = refl

    serve-whitelist :
        (ips : List String)
        → caddy.serve
            (if_any ips (
                deny go r
                  ((host (r.domain ∷ []) ∷ not_remote_ip (normalize_ranges go ips) ∷ []) ∷ []))
              ++ rest)
            q
          ≡ blocked_or r
              (caddy.host_matches r.domain q
                && not (or_empty ips (caddy.in_ranges (normalize_ranges go ips) q)))
              (caddy.serve rest q)
    serve-whitelist [] = nothing_denied (caddy.host_matches r.domain q)
    serve-whitelist (ip ∷ ips) =
        serve-one_set r (not_remote_ip (normalize_ranges go (ip ∷ ips))) _ rest q
          (caddy.holds-not_remote_ip (normalize_ranges go (ip ∷ ips)) q)

    serve-blacklist :
        (ips : List String)
        → caddy.serve
            (if_any ips
                (deny go r ((host (r.domain ∷ []) ∷ remote_ip (normalize_ranges go ips) ∷ []) ∷ []))
              ++ rest)
            q
          ≡ blocked_or r
              (caddy.host_matches r.domain q
                && not (or_empty ips (not (caddy.in_ranges (normalize_ranges go ips) q))))
              (caddy.serve rest q)
    serve-blacklist [] = nothing_denied (caddy.host_matches r.domain q)
    serve-blacklist (ip ∷ ips) =
        serve-one_set r (remote_ip (normalize_ranges go (ip ∷ ips))) _ rest q
          (caddy.holds-remote_ip (normalize_ranges go (ip ∷ ips)) q ∙ twice (caddy.in_ranges _ q))
      where
        twice : (b : Bool) → b ≡ not (not b)
        twice true = refl
        twice false = refl

    serve-filters :
        (fs : List Filter)
        → all_known go fs ≡ true
        → caddy.serve (if_any fs (deny go r (filter_matchers go r.domain fs)) ++ rest) q
          ≡ blocked_or r
              (caddy.host_matches r.domain q && not (not (any_filter go caddy fs q)))
              (caddy.serve rest q)
    serve-filters [] known = nothing_denied (caddy.host_matches r.domain q)
    serve-filters (f ∷ fs) known =
        serve-deny r (filter_matchers go r.domain (f ∷ fs)) rest q
        ∙ ap (λ b. blocked_or r b (caddy.serve rest q))
            (matched-filter_matchers r.domain f fs q known
              ∙ any_set-filter_matchers r.domain (f ∷ fs) q
              ∙ ap (λ b. caddy.host_matches r.domain q && b)
                  (twice (any_filter go caddy (f ∷ fs) q)))
      where
        twice : (b : Bool) → b ≡ not (not b)
        twice true = refl
        twice false = refl

    all_known-true :
        (rule : Rule)
        → str_eq rule.kind "request_filter" ≡ true
        → HasKnownFilters go rule
        → all_known go rule.spec.filters ≡ true
    all_known-true rule filters known = known_if _ _ filters known
      where
        known_if : (a b : Bool) → a ≡ true → (a && not b) ≡ false → b ≡ true
        known_if true true _ _ = refl
        known_if true false _ h = sym h
        known_if false b h _ = cc

    serve-rule_deny_route :
        (rule : Rule)
        → HasKnownFilters go rule
        → caddy.serve (rule_deny_route go r rule ++ rest) q
          ≡ blocked_or r
              (caddy.host_matches r.domain q && not (rule_admits go caddy rule q))
              (caddy.serve rest q)
    unfolding rule_deny_route
    serve-rule_deny_route rule known = elim (Bool-cases (str_eq rule.kind "ip_whitelist")) [
      | inl white ↦ rw white (serve-whitelist rule.spec.ips)
      | inr a ↦ elim (Bool-cases (str_eq rule.kind "ip_blacklist")) [
        | inl black ↦ rw (a, black) (serve-blacklist rule.spec.ips)
        | inr b ↦ elim (Bool-cases (str_eq rule.kind "request_filter")) [
          | inl filters ↦
              rw (a, b, filters)
                (serve-filters rule.spec.filters (all_known-true rule filters known))
          | inr c ↦ rw (a, b, c) (nothing_denied (caddy.host_matches r.domain q))
        ]
      ]
    ]

    pub serve-deny_route :
        caddy.serve (deny_route go r ++ rest) q
        ≡ blocked_or r
            (caddy.host_matches r.domain q && not (route_admits go caddy r q))
            (caddy.serve rest q)
    unfolding deny_route
    serve-deny_route = serve-whitelist r.whitelist

  pub append_assoc : (xs ys zs : List CaddyRoute) → (xs ++ ys) ++ zs ≡ xs ++ (ys ++ zs)
  append_assoc [] ys zs = refl
  append_assoc (x ∷ xs) ys zs = ap (λ l. x ∷ l) (append_assoc xs ys zs)

  pub serve-deny_routes :
      (r : Route) (rules : List Rule) (rest : List CaddyRoute) (q : caddy.Request)
      → All (HasKnownFilters go) rules
      → caddy.serve (deny_routes go r rules ++ rest) q
        ≡ blocked_or r
            (caddy.host_matches r.domain q && not (rules_admit go caddy rules q))
            (caddy.serve rest q)
  unfolding deny_routes
  serve-deny_routes r [] rest q known = nothing_denied r rest q (caddy.host_matches r.domain q)
  serve-deny_routes r (rule ∷ rules) rest q known =
      ap (λ l. caddy.serve l q)
        (append_assoc (rule_deny_route go r rule) (deny_routes go r rules) rest)
      ∙ serve-rule_deny_route r (deny_routes go r rules ++ rest) q rule known.0
      ∙ ap (blocked_or r (caddy.host_matches r.domain q && not (rule_admits go caddy rule q)))
          (serve-deny_routes r rules rest q known.1)
      ∙ both (caddy.host_matches r.domain q) (rule_admits go caddy rule q)
          (rules_admit go caddy rules q)
    where
      both :
          (h a b : Bool)
          → blocked_or r (h && not a) (blocked_or r (h && not b) (caddy.serve rest q))
            ≡ blocked_or r (h && not (a && b)) (caddy.serve rest q)
      both true true b = refl
      both true false b = refl
      both false a b = refl
