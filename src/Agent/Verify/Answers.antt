-- ===== src/Agent/Verify/Answers.antt =====
-- The paths that the rendered routes ask for, and the rules that the endpoint has.
use edge_caddy.Prelude.{
  Bool, true, false, ◌||◌, String, str_append, str_eq, eq_iff, eq_refl, some, List, [], ◌∷◌, ◌≡◌,
  refl, sym, ap, ◌∙◌, subst, if◌then◌else◌, Bool-cases, inl, inr, All, All-map,
}
use edge_caddy.Prelude.Assoc.{Assoc, lookup, insert, lookup-insert}
use edge_caddy.Render.Go.{Go}
use edge_caddy.Render.Resources.{Rule, Route, VerifyRule}
use edge_caddy.Render.Caddy.{
  Handler, abort, status_response, forward_auth, request_body, encode_gzip, reverse_proxy,
  response_headers,
}
use edge_caddy.Render.Access.{Options, is_verified, caddy_routes}
use edge_caddy.Render.Validate.{is_live}
use edge_caddy.Render.VerifyRules.{verify_rule, verify_loop, verify_rules}
use edge_caddy.Render.VerifyRules.Covered.{
  is_served, IsCovered, AllCovered, caddy_routes-AllCovered,
}
use edge_caddy.Agent.Verify.{AgentRule, agent_rule, rules_loop, rules_map}
use edge_caddy.Agent.Verify.Calls.{Calls}
use edge_caddy.Agent.Verify.Handle.{Verifier, set_rules}

-- The rules have one with the ID, of a type that the endpoint checks.
abbrev pub HasRule : Assoc AgentRule → String → Type 0
HasRule m id = (rule : AgentRule) × ((lookup id m ≡ some rule) × (is_verified rule.kind ≡ true))

insert-HasRule :
    (k id : String) (rule : AgentRule) (m : Assoc AgentRule)
    → is_verified rule.kind ≡ true
    → HasRule m id
    → HasRule (insert k rule m) id
insert-HasRule k id rule m checked has_rule = elim (Bool-cases (str_eq k id)) [
  | inl same ↦ (rule, (rw (lookup-insert k id rule m, same) refl, checked))
  | inr apart ↦ (has_rule.0, (rw (lookup-insert k id rule m, apart) has_rule.1.0, has_rule.1.1))
]

abbrev IsChecked : VerifyRule → Type 0
IsChecked v = is_verified v.kind ≡ true

rules_loop-HasRule :
    (id : String) (m : Assoc AgentRule) (vs : List VerifyRule)
    → All IsChecked vs
    → HasRule m id
    → HasRule (rules_loop m vs) id
unfolding rules_loop agent_rule
rules_loop-HasRule id m [] checked has_rule = has_rule
rules_loop-HasRule id m (v ∷ vs) checked has_rule =
    rules_loop-HasRule id (insert v.id (agent_rule v) m) vs checked.1
      (insert-HasRule v.id id (agent_rule v) m checked.0 has_rule)

verify_rule-kind : (r : Rule) → (verify_rule r).kind ≡ r.kind
unfolding verify_rule
verify_rule-kind r = elim (Bool-cases (str_eq r.kind "service_secret")) [
  | inl e ↦ rw e refl
  | inr a ↦ elim (Bool-cases (str_eq r.kind "jwt_bearer")) [
    | inl e ↦ rw (a, e) refl
    | inr b ↦ elim (Bool-cases (str_eq r.kind "rate_limit")) [
      | inl e ↦ rw (a, b, e) refl
      | inr c ↦ rw (a, b, c) refl
    ]
  ]
]

verify_loop-IsChecked : (go : Go) (rules : List Rule) → All IsChecked (verify_loop go rules)
unfolding verify_loop
verify_loop-IsChecked go [] = tt
verify_loop-IsChecked go (r ∷ rs) =
    kept (is_live go r) (is_verified r.kind) refl (verify_loop-IsChecked go rs)
  where
    kept :
        (live checked : Bool)
        → is_verified r.kind ≡ checked
        → All IsChecked (verify_loop go rs)
        → All IsChecked (
            if live
            then (if checked then verify_rule r ∷ verify_loop go rs else verify_loop go rs)
            else verify_loop go rs)
    kept true true e rest = (ap is_verified (verify_rule-kind r) ∙ e, rest)
    kept true false e rest = rest
    kept false checked e rest = rest

module _ (calls : Calls) where
  is_served-HasRule :
      (path : String) (m : Assoc AgentRule) (vs : List VerifyRule)
      → All IsChecked vs
      → is_served path vs ≡ true
      → HasRule (rules_loop m vs) (calls.trim_verify path)
  unfolding rules_loop agent_rule
  is_served-HasRule path m [] checked served = cc
  is_served-HasRule path m (v ∷ vs) checked served =
      elim (Bool-cases (str_eq path (str_append "/verify/" v.id))) [
        | inl here ↦
            let id : calls.trim_verify path ≡ v.id =
              ap calls.trim_verify ((eq_iff path (str_append "/verify/" v.id)).0 here)
              ∙ calls.trim_verify-prefix v.id in
            subst (HasRule (rules_loop (insert v.id (agent_rule v) m) vs)) (sym id) (
              rules_loop-HasRule v.id (insert v.id (agent_rule v) m) vs checked.1 (
                agent_rule v,
                (rw (lookup-insert v.id v.id (agent_rule v) m, eq_refl v.id) refl, checked.0),
              ))
        | inr further ↦
            is_served-HasRule path (insert v.id (agent_rule v) m) vs checked.1
              (sym (ap (λ b. b || is_served path vs) further) ∙ served)
      ]

  -- The endpoint has a rule, of a type that it checks, for what the handler asks of it.
  abbrev pub IsAnswered : Verifier calls.Reader → Handler → Type 0
  IsAnswered v (forward_auth address path) = HasRule v.rules (calls.trim_verify path)
  IsAnswered v _ = Unit

  -- Once the agent has been given the rules that come with a configuration, it has a rule, of a type
  -- that it checks, for every request that the configuration's routes send to it.
  pub rendered-IsAnswered :
      (go : Go) (opt : Options) (routes : List Route) (rules : List Rule)
      (v : Verifier calls.Reader)
      → All
          (λ route. All (IsAnswered (set_rules calls (verify_rules go rules) v)) route.handle)
          (caddy_routes go opt routes rules)
  unfolding set_rules rules_map verify_rules
  rendered-IsAnswered go opt routes rules v =
      All-map {P = AllCovered (verify_rules go rules)}
        (λ route covered. All-map answered route.handle covered) (caddy_routes go opt routes rules)
        (caddy_routes-AllCovered go opt routes rules)
    where
      answered :
          (h : Handler)
          → IsCovered (verify_rules go rules) h
          → IsAnswered (set_rules calls (verify_rules go rules) v) h
      answered (forward_auth address path) served =
          is_served-HasRule path [] (verify_rules go rules)
            (verify_loop-IsChecked go (go.sort_rules rules)) served
      answered abort covered = tt
      answered (status_response n) covered = tt
      answered (request_body n) covered = tt
      answered encode_gzip covered = tt
      answered (reverse_proxy up cert) covered = tt
      answered (response_headers ops) covered = tt
