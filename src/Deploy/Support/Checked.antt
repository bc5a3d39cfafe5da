-- ===== src/Deploy/Support/Checked.antt =====
-- What it means that the check for unsupported rules found none.
use edge_caddy.Prelude.{
  Bool, true, false, not, ◌&&◌, String, some, List, [], ◌∷◌, ◌++◌, ◌≡◌, refl, if◌then◌else◌, has,
  str_eq, eq_refl, Bool-cases, inl, inr,
}
use edge_caddy.Prelude.Assoc.{Assoc, lookup}
use edge_caddy.Deploy.Json.{Fields}
use edge_caddy.Deploy.Merge.{ok}
use edge_caddy.Deploy.Support.{
  Node, verified_kinds, type_of, is_effective, node_supports, needs, missing, Unsupported, report,
  unsupported_issues, read_nodes, unsupported_rules,
}

-- A type that is among the needed ones, with an effective rule of it in the configuration.
has-needs :
    (rules : Assoc Fields) (id : String) (r : Fields)
    → lookup id rules ≡ some r
    → is_effective r ≡ true
    → has (type_of r) verified_kinds ≡ true
    → has (type_of r) (needs rules) ≡ true
unfolding lookup needs
has-needs [] id r there on checked = cc
has-needs ((i, rule) ∷ rules) id r there on checked = elim (Bool-cases (str_eq i id)) [
  | inl same ↦
      let here : rule ≡ r = cc (rw same at there) in
      rw here (rw on (rw checked (rw (eq_refl (type_of r)) refl)))
  | inr apart ↦
      kept (is_effective rule && has (type_of rule) verified_kinds) (type_of rule) (needs rules)
        (type_of r) (has-needs rules id r (rw apart at there) on checked)
]
  where
    kept :
        (b : Bool) (k : String) (ks : List String) (kind : String)
        → has kind ks ≡ true
        → has kind (if b then k ∷ ks else ks) ≡ true
    kept true k ks kind h = elim (Bool-cases (str_eq k kind)) [
      | inl same ↦ rw same refl
      | inr apart ↦ rw apart h
    ]
    kept false k ks kind h = h

missing_none :
    (before : List Node) (n : Node) (after : List Node) (kind : String)
    → missing (before ++ n ∷ after) kind ≡ []
    → n.is_drained ≡ false
    → node_supports n.verify_kinds kind ≡ true
unfolding missing
missing_none [] n after kind h active = elim (Bool-cases (node_supports n.verify_kinds kind)) [
  | inl knows ↦ knows
  | inr lacks ↦ cc (rw (active, lacks) at h)
]
missing_none (m ∷ before) n after kind h active =
    missing_none before n after kind
      (tail_none (not m.is_drained && not (node_supports m.verify_kinds kind)) m.id
        (missing (before ++ n ∷ after) kind) h)
      active
  where
    tail_none :
        (b : Bool) (x : String) (xs : List String) → (if b then x ∷ xs else xs) ≡ [] → xs ≡ []
    tail_none true x xs h = cc
    tail_none false x xs h = h

unreported :
    (id : String) (ids : List String) (issues : List Unsupported)
    → report id ids issues ≡ []
    → ids ≡ []
unreported id [] issues h = refl
unreported id (x ∷ xs) issues h = cc

unreported_rest :
    (id : String) (ids : List String) (issues : List Unsupported)
    → report id ids issues ≡ []
    → issues ≡ []
unreported_rest id [] issues h = h
unreported_rest id (x ∷ xs) issues h = cc

rest_none :
    (b : Bool) (id : String) (ids : List String) (issues : List Unsupported)
    → (if b then report id ids issues else issues) ≡ []
    → issues ≡ []
rest_none true id ids issues h = unreported_rest id ids issues h
rest_none false id ids issues h = h

issues_none :
    (kinds : List String) (nodes : List Node) (rules : Assoc Fields) (id : String) (r : Fields)
    → unsupported_issues kinds nodes rules ≡ []
    → lookup id rules ≡ some r
    → is_effective r ≡ true
    → has (type_of r) kinds ≡ true
    → missing nodes (type_of r) ≡ []
unfolding unsupported_issues lookup
issues_none kinds nodes [] id r h there on needed = cc
issues_none kinds nodes ((i, rule) ∷ rules) id r h there on needed =
    elim (Bool-cases (str_eq i id)) [
      | inl same ↦
          let here : rule ≡ r = cc (rw same at there) in
          unreported i (missing nodes (type_of r)) (unsupported_issues kinds nodes rules)
            (rw (here, on, needed) at h)
      | inr apart ↦
          issues_none kinds nodes rules id r
            (rest_none (is_effective rule && has (type_of rule) kinds) i
              (missing nodes (type_of rule)) (unsupported_issues kinds nodes rules) h)
            (rw apart at there) on needed
    ]

checked_needed :
    (kinds : List String) (nodes : List Node) (rules : Assoc Fields) (id : String) (r : Fields)
    → read_nodes kinds (some nodes) rules ≡ ok []
    → lookup id rules ≡ some r
    → is_effective r ≡ true
    → has (type_of r) kinds ≡ true
    → missing nodes (type_of r) ≡ []
checked_needed [] nodes rules id r h there on needed = cc
checked_needed (k ∷ ks) nodes rules id r h there on needed =
    issues_none (k ∷ ks) nodes rules id r (cc h) there on needed

-- Where the check finds nothing, every node in service knows the type of every rule that is enabled,
-- bound and of a type that the verification endpoint has to know.
pub supported_if_checked :
    (before : List Node) (n : Node) (after : List Node) (rules : Assoc Fields) (id : String)
    (r : Fields)
    → unsupported_rules (some (before ++ n ∷ after)) rules ≡ ok []
    → n.is_drained ≡ false
    → lookup id rules ≡ some r
    → is_effective r ≡ true
    → has (type_of r) verified_kinds ≡ true
    → node_supports n.verify_kinds (type_of r) ≡ true
unfolding unsupported_rules
supported_if_checked before n after rules id r h active there on checked =
    missing_none before n after (type_of r)
      (checked_needed (needs rules) (before ++ n ∷ after) rules id r h there on
        (has-needs rules id r there on checked))
      active
