-- ===== src/Render/VerifyRules/Covered.antt =====
-- What the rendered routes ask of the agent, and the rules that the agent is told of.
use edge_caddy.Prelude.{
  ℕ, ltb, Bool, true, false, ◌||◌, String, str_append, str_eq, eq_refl, Option, none, some, List,
  [], ◌∷◌, ◌≡◌, refl, if◌then◌else◌, Bool-cases, inl, inr, All, All-append,
}
use edge_caddy.Render.Go.{Go}
use edge_caddy.Render.BodyMax.{parse_body_max}
use edge_caddy.Render.Resources.{Rule, VerifyRule, Route}
use edge_caddy.Render.Caddy.{
  Condition, Handler, forward_auth, request_body, encode_gzip, CaddyRoute,
}
use edge_caddy.Render.Access.{
  Options, with_defaults, block_handler, if_any, deny, deny_route, rule_deny_route, deny_routes,
  body_handlers, routes_loop, fallback, caddy_routes, is_verified, forward_auth_handler,
  auth_handlers, proxy_handlers, proxy_route, rules_of,
}
use edge_caddy.Render.Access.Applied.{rules_of-All}
use edge_caddy.Render.Validate.{is_live}
use edge_caddy.Render.VerifyRules.{verify_rule, verify_loop, verify_rules}

-- Some rule of the agent has the ID that a path of the endpoint ends in.
abbrev pub is_served : String → List VerifyRule → Bool
is_served path [] = false
is_served path (v ∷ vs) = str_eq path (str_append "/verify/" v.id) || is_served path vs

-- The handler asks the agent for nothing, or for a rule that the agent has.
abbrev pub IsCovered : List VerifyRule → Handler → Type 0
IsCovered vs (forward_auth address path) = is_served path vs ≡ true
IsCovered vs _ = Unit

-- The rule is not one that the agent checks, or the agent has it.
abbrev IsKnown : List VerifyRule → Rule → Type 0
IsKnown vs rule = is_verified rule.kind ≡ true → is_served (str_append "/verify/" rule.id) vs ≡ true

pub verify_rule-id : (r : Rule) → (verify_rule r).id ≡ r.id
unfolding verify_rule
verify_rule-id r = elim (Bool-cases (str_eq r.kind "service_secret")) [
  | inl e ↦ rw e refl
  | inr a ↦ elim (Bool-cases (str_eq r.kind "jwt_bearer")) [
    | inl e ↦ rw (a, e) refl
    | inr b ↦ elim (Bool-cases (str_eq r.kind "rate_limit")) [
      | inl e ↦ rw (a, b, e) refl
      | inr c ↦ rw (a, b, c) refl
    ]
  ]
]

block_handler-IsCovered : (vs : List VerifyRule) (mode : String) → IsCovered vs (block_handler mode)
unfolding block_handler
block_handler-IsCovered vs mode = elim (Bool-cases (str_eq mode "403")) [
  | inl e ↦ rw e tt
  | inr a ↦ elim (Bool-cases (str_eq mode "404")) [ inl e ↦ rw (a, e) tt | inr b ↦ rw (a, b) tt ]
]

if-All : {A : Type 0} (P : A → Type 0) (b : Bool) (a : A) → P a → All P (if b then a ∷ [] else [])
if-All P true a p = (p, tt)
if-All P false a p = tt

abbrev pub AllCovered : List VerifyRule → CaddyRoute → Type 0
AllCovered vs route = All (IsCovered vs) route.handle

module _ (go : Go) where
  auth_handlers-All :
      (vs : List VerifyRule) (opt : Options) (rules : List Rule)
      → All (IsKnown vs) rules
      → All (IsCovered vs) (auth_handlers go opt rules)
  unfolding auth_handlers forward_auth_handler
  auth_handlers-All vs opt [] known = tt
  auth_handlers-All vs opt (rule ∷ rules) known = elim (Bool-cases (is_verified rule.kind)) [
    | inl on ↦ simp on (known.0 on, auth_handlers-All vs opt rules known.1)
    | inr off ↦ simp off (auth_handlers-All vs opt rules known.1)
  ]

  body_handlers-All :
      (vs : List VerifyRule) (o : Option ℕ) → All (IsCovered vs) (body_handlers go o)
  body_handlers-All vs none = tt
  body_handlers-All vs (some n) = if-All (IsCovered vs) (ltb 0 n) (request_body n) tt

  proxy_handlers-All :
      (vs : List VerifyRule) (opt : Options) (r : Route) (rules : List Rule)
      → All (IsKnown vs) rules
      → All (IsCovered vs) (proxy_handlers go opt r rules)
  unfolding proxy_handlers
  proxy_handlers-All vs opt r rules known =
      All-append (IsCovered vs) (auth_handlers go opt rules) _
        (auth_handlers-All vs opt rules known)
        (All-append (IsCovered vs) (body_handlers go (parse_body_max go r.body_max)) _
          (body_handlers-All vs (parse_body_max go r.body_max))
          (All-append (IsCovered vs) (if r.compress then encode_gzip ∷ [] else []) _
            (if-All (IsCovered vs) r.compress encode_gzip tt) (tt, tt)))

  module _ (vs : List VerifyRule) (r : Route) where
    deny-All :
        {A : Type 0} (xs : List A) (sets : List (List Condition))
        → All (AllCovered vs) (if_any xs (deny go r sets))
    deny-All [] sets = tt
    deny-All (_ ∷ _) sets = ((block_handler-IsCovered vs r.block_mode, tt), tt)

    rule_deny_route-All : (rule : Rule) → All (AllCovered vs) (rule_deny_route go r rule)
    unfolding rule_deny_route
    rule_deny_route-All rule = elim (Bool-cases (str_eq rule.kind "ip_whitelist")) [
      | inl e ↦ rw e (deny-All rule.spec.ips _)
      | inr a ↦ elim (Bool-cases (str_eq rule.kind "ip_blacklist")) [
        | inl e ↦ rw (a, e) (deny-All rule.spec.ips _)
        | inr b ↦ elim (Bool-cases (str_eq rule.kind "request_filter")) [
          | inl e ↦ rw (a, b, e) (deny-All rule.spec.filters _)
          | inr c ↦ rw (a, b, c) tt
        ]
      ]
    ]

    deny_routes-All : (rules : List Rule) → All (AllCovered vs) (deny_routes go r rules)
    unfolding deny_routes
    deny_routes-All [] = tt
    deny_routes-All (rule ∷ rules) =
        All-append (AllCovered vs) (rule_deny_route go r rule) _ (rule_deny_route-All rule)
          (deny_routes-All rules)

    deny_route-All : All (AllCovered vs) (deny_route go r)
    unfolding deny_route
    deny_route-All = deny-All r.whitelist _

  routes_loop-All :
      (vs : List VerifyRule) (opt : Options) (rules : List Rule) (rs : List Route)
      → All (λ rule. is_live go rule ≡ true → IsKnown vs rule) rules
      → All (AllCovered vs) (routes_loop go opt rules rs)
  unfolding routes_loop proxy_route
  routes_loop-All vs opt rules [] known = tt
  routes_loop-All vs opt rules (r ∷ rs) known =
      let applied = rules_of go r.domain rules in
      All-append (AllCovered vs) (deny_routes go r applied) _ (deny_routes-All vs r applied) (
        All-append (AllCovered vs) (deny_route go r) _ (deny_route-All vs r) (
          proxy_handlers-All vs opt r applied (rules_of-All go (IsKnown vs) r.domain rules known),
          routes_loop-All vs opt rules rs known,
        ))

  verify_loop-IsKnown :
      (rules : List Rule) (vs : List VerifyRule)
      → ((path : String) → is_served path (verify_loop go rules) ≡ true → is_served path vs ≡ true)
      → All (λ rule. is_live go rule ≡ true → IsKnown vs rule) rules
  unfolding verify_loop
  verify_loop-IsKnown [] vs more = tt
  verify_loop-IsKnown (rule ∷ rules) vs more = (
    (λ live checked. more (str_append "/verify/" rule.id) (simp (live, checked) (first rule))),
    verify_loop-IsKnown rules vs
        (λ path served. more path (later (is_live go rule) (is_verified rule.kind) path served)),
  )
    where
      first :
          (r : Rule)
          → (str_eq (str_append "/verify/" r.id) (str_append "/verify/" (verify_rule r).id)
              || is_served (str_append "/verify/" r.id) (verify_loop go rules))
            ≡ true
      first r = rw (verify_rule-id r, eq_refl (str_append "/verify/" r.id)) refl

      or_true : (a b : Bool) → b ≡ true → (a || b) ≡ true
      or_true true b h = refl
      or_true false b h = h

      later :
          (live checked : Bool) (path : String)
          → is_served path (verify_loop go rules) ≡ true
          → is_served path (
              if live
              then (if checked
                  then verify_rule rule ∷ verify_loop go rules
                  else verify_loop go rules)
              else verify_loop go rules)
            ≡ true
      later true true path served = or_true (str_eq path _) _ served
      later true false path served = served
      later false checked path served = served

  -- Every handler of the rendered routes that asks the agent asks for a rule that the agent is told
  -- of: whatever the resources are, no rendered path is unknown to it.
  pub caddy_routes-AllCovered :
      (opt : Options) (routes : List Route) (rules : List Rule)
      → All (AllCovered (verify_rules go rules)) (caddy_routes go opt routes rules)
  unfolding caddy_routes verify_rules
  caddy_routes-AllCovered opt routes rules =
      All-append (AllCovered (verify_rules go rules))
        (routes_loop go (with_defaults opt) (go.sort_rules rules) (go.sort_routes routes))
        (fallback go ∷ [])
        (routes_loop-All _ (with_defaults opt) (go.sort_rules rules) (go.sort_routes routes)
          (verify_loop-IsKnown (go.sort_rules rules) _ (λ path served. served)))
        ((tt, tt), tt)
