-- ===== src/Render/Access/Spec.antt =====
-- An independent description of the access rules: what becomes of a request.
use edge_caddy.Prelude.{
  Bool, true, false, not, ◌&&◌, ◌||◌, String, str_eq, Option, none, some, List, [], ◌∷◌, ◌≡◌,
  if◌then◌else◌,
}
use edge_caddy.Render.Go.{Go}
use edge_caddy.Render.Resources.{Filter, Rule, Route}
use edge_caddy.Render.Caddy.{Condition, Handler, abort, Caddy}
use edge_caddy.Render.Validate.{is_live}
use edge_caddy.Render.Access.{
  Options, block_handler, normalize_ranges, filter_condition, proxy_handlers, rules_of,
}

-- The field of the filter is one that can be matched.
abbrev pub is_known : Option Condition → Bool
is_known none = false
is_known (some c) = true

abbrev pub or_empty : List String → Bool → Bool
or_empty [] b = true
or_empty (_ ∷ _) b = b

module _ (go : Go) where
  abbrev pub all_known : List Filter → Bool
  all_known [] = true
  all_known (f ∷ fs) = is_known (filter_condition go f) && all_known fs

  -- The rule is one of filters, and some filter of it is on a field that cannot be matched.
  abbrev pub has_unknown : Rule → Bool
  has_unknown rule = str_eq rule.kind "request_filter" && not (all_known rule.spec.filters)

  abbrev pub HasKnownFilters : Rule → Type 0
  HasKnownFilters rule = has_unknown rule ≡ false

  -- The rule applies to no domain, or its filters can be matched.
  abbrev pub IsRenderable : Rule → Type 0
  IsRenderable rule = is_live go rule ≡ true → HasKnownFilters rule

  module _ (caddy : Caddy) where
    abbrev pub holds_at : Option Condition → caddy.Request → Bool
    holds_at none q = false
    holds_at (some c) q = caddy.holds c q

    -- Some filter of the list holds of the request.
    abbrev pub any_filter : List Filter → caddy.Request → Bool
    any_filter [] q = false
    any_filter (f ∷ fs) q = holds_at (filter_condition go f) q || any_filter fs q

    -- The rule lets the request through: the address is on its whitelist, is not on its blacklist, or
    -- no filter of it holds. A list without an entry lets everything through.
    abbrev pub rule_admits : Rule → caddy.Request → Bool
    rule_admits rule q =
        if str_eq rule.kind "ip_whitelist"
        then or_empty rule.spec.ips (caddy.in_ranges (normalize_ranges go rule.spec.ips) q)
        else if str_eq rule.kind "ip_blacklist"
        then or_empty rule.spec.ips (not (caddy.in_ranges (normalize_ranges go rule.spec.ips) q))
        else if str_eq rule.kind "request_filter"
        then not (any_filter rule.spec.filters q)
        else true

    abbrev pub rules_admit : List Rule → caddy.Request → Bool
    rules_admit [] q = true
    rules_admit (rule ∷ rules) q = rule_admits rule q && rules_admit rules q

    abbrev pub route_admits : Route → caddy.Request → Bool
    route_admits r q = or_empty r.whitelist (caddy.in_ranges (normalize_ranges go r.whitelist) q)

    -- What becomes of a request: the first route, by domain, that its host belongs to decides, and a
    -- request for no known host is cut off.
    abbrev pub decide : Options → List Rule → List Route → caddy.Request → List Handler
    decide opt rules [] q = abort ∷ []
    decide opt rules (r ∷ rs) q =
        let later = decide opt rules rs q in
        let applied = rules_of go r.domain rules in
        if caddy.host_matches r.domain q
        then if rules_admit applied q && route_admits r q
          then proxy_handlers go opt r applied
          else block_handler r.block_mode ∷ []
        else later
