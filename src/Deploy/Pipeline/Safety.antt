-- ===== src/Deploy/Pipeline/Safety.antt =====
-- When a deployment changes the tables or touches a node, and when it does not.
use edge_caddy.Prelude.{
  Bool, true, false, not, String, Option, none, some, List, [], ◌∷◌, ◌++◌, ◌≡◌, ◌≢◌, refl, sym, ap,
  ◌∙◌, ◌⊎◌, inl, inr, ltb, if◌then◌else◌, Bool-cases, has,
}
use edge_caddy.Prelude.Assoc.{Assoc, lookup}
use edge_caddy.Deploy.Keys.{ResKey, route, rule, global, selected}
use edge_caddy.Deploy.Json.{Json, Fields}
use edge_caddy.Deploy.Merge.{Outcome, ok, err, panic, merge_into, merge_rule_draft}
use edge_caddy.Deploy.Merge.Laws.{>>=-eq-ok}
use edge_caddy.Deploy.Effective.{
  Tables, Config, patches, merge_rows, spec_of, has_base, orphans, effective,
}
use edge_caddy.Deploy.Commit.{commit}
use edge_caddy.Deploy.Retry.{PushOutcome, applied, refused, unreachable, DeployResult}
use edge_caddy.Deploy.Support.{
  Node, verified_kinds, type_of, is_effective, node_supports, unsupported_rules,
}
use edge_caddy.Deploy.Support.Checked.{supported_if_checked}
use edge_caddy.Deploy.Pipeline.{
  World, Refusal, Checked, refuses, admits, unless_any, unless_failed, unless_empty, checked,
  first_round, Tally, tally, count, settle, after_check, deploy,
}

unless_any-admits :
    {A : Type 0} (xs : List A) (why : List A → Refusal) (next : Checked) (c : Config)
    → unless_any xs why next ≡ admits c
    → (xs ≡ []) × (next ≡ admits c)
unless_any-admits [] why next c h = (refl, h)
unless_any-admits (x ∷ xs) why next c h = cc

unless_failed-admits :
    {A : Type 0} (o : Outcome A) (next : A → Checked) (c : Config)
    → unless_failed o next ≡ admits c
    → (a : A) × (o ≡ ok a) × (next a ≡ admits c)
unless_failed-admits (ok a) next c h = (a, refl, h)
unless_failed-admits err next c h = cc
unless_failed-admits panic next c h = cc

unless_empty-admits :
    (online : List String) (next : Checked) (c : Config)
    → unless_empty online next ≡ admits c
    → next ≡ admits c
unless_empty-admits [] next c h = cc
unless_empty-admits (_ ∷ _) next c h = h

refused_if :
    (b : Bool) (why : Refusal) (next : Checked) (c : Config)
    → (if b then refuses why else next) ≡ admits c
    → next ≡ admits c
refused_if true why next c h = cc
refused_if false why next c h = h

recorded_if :
    (b : Bool) (why : Refusal) (c d : Config)
    → (if b then admits c else refuses why) ≡ admits d
    → c ≡ d
recorded_if true why c d h = cc h
recorded_if false why c d h = cc

-- A deployment that is admitted has passed the checks.
admits-checked :
    (w : World) (keys : List ResKey) (t : Tables) (c : Config)
    → checked w keys t ≡ admits c
    → (effective w.parses keys t ≡ ok c)
      × (c.orphans ≡ [])
      × (unsupported_rules w.nodes c.rules ≡ ok [])
unfolding checked
admits-checked w keys t c h =
    let (d, merged, h1) = unless_failed-admits (effective w.parses keys t) _ c h in
    let (founded, h2) = unless_any-admits d.orphans _ _ c h1 in
    let h3 = refused_if (not w.certs_read) _ _ c h2 in
    let (rendered, h4) = unless_any-admits (w.issues d) _ _ c h3 in
    let (us, known, h5) = unless_failed-admits (unsupported_rules w.nodes d.rules) _ c h4 in
    let (supported, h6) = unless_any-admits us _ _ c h5 in
    let same = recorded_if w.creates _ d c (unless_empty-admits w.online _ c h6) in
    (
      merged ∙ ap ok same,
      ap (λ x. x.orphans) (sym same) ∙ founded,
      ap (λ x. unsupported_rules w.nodes x.rules) (sym same) ∙ known ∙ ap ok supported,
    )

-- Some node of the list applies what is pushed.
abbrev pub any_applied : (String → PushOutcome) → List String → Bool
any_applied push [] = false
any_applied push (node ∷ rest) = elim (push node) [ applied ↦ true | _ ↦ any_applied push rest ]

ok_count_none :
    (version : String) (push : String → PushOutcome) (before : Assoc String) (nodes : List String)
    → any_applied push nodes ≡ false
    → (tally version push before nodes).ok_count ≡ 0
unfolding tally count
ok_count_none version push before [] h = refl
ok_count_none version push before (node ∷ rest) h =
    one (push node) (tally version push before rest) h
      (λ g. ok_count_none version push before rest g)
  where
    one :
        (out : PushOutcome) (y : Tally)
        → (elim out [ applied ↦ true | _ ↦ any_applied push rest ]) ≡ false
        → (any_applied push rest ≡ false → y.ok_count ≡ 0)
        → (count version node out y).ok_count ≡ 0
    one applied y h ih = cc
    one refused y h ih = ih h
    one unreachable y h ih = ih h

-- What a settled deployment leaves in the tables.
settled_tables :
    (w : World) (keys : List ResKey) (c : Config) (t : Tables) (results : List DeployResult)
    (y : Tally)
    → ((settle w keys c t results y).tables ≡ t)
      ⊎ ((ltb 0 y.ok_count ≡ true)
          × ((settle w keys c t results y).tables ≡ commit keys c w.version t))
unfolding settle
settled_tables w keys c t results y = elim (Bool-cases (ltb 0 y.ok_count)) [
  | inr none_ok ↦ inl (rw none_ok refl)
  | inl some_ok ↦ elim (Bool-cases w.commits) [
    | inl fine ↦ inr (some_ok, rw some_ok (rw fine refl))
    | inr failed ↦ inl (rw some_ok (rw failed refl))
  ]
]

-- Either a deployment leaves the tables as they are, or at least one node has applied what was
-- pushed, no selected draft is without its resource, no pushed rule is unsupported, and the tables
-- are those of the commit of the effective configuration.
pub tables-deploy :
    (w : World) (keys : List ResKey) (t : Tables) (versions : Assoc String)
    → ((deploy w keys t versions).tables ≡ t)
      ⊎ ((c : Config) × (effective w.parses keys t ≡ ok c)
          × (c.orphans ≡ [])
          × (unsupported_rules w.nodes c.rules ≡ ok [])
          × (any_applied w.push w.online ≡ true)
          × ((deploy w keys t versions).tables ≡ commit keys c w.version t))
unfolding deploy after_check
tables-deploy w keys t versions = by_check (checked w keys t) refl
  where
    by_check :
        (o : Checked)
        → checked w keys t ≡ o
        → ((after_check w keys t versions o).tables ≡ t)
          ⊎ ((c : Config) × (effective w.parses keys t ≡ ok c)
              × (c.orphans ≡ [])
              × (unsupported_rules w.nodes c.rules ≡ ok [])
              × (any_applied w.push w.online ≡ true)
              × ((after_check w keys t versions o).tables ≡ commit keys c w.version t))
    by_check (refuses why) h = inl refl
    by_check (admits c) h =
        let y = tally w.version w.push versions w.online in
        elim (settled_tables w keys c t (first_round w.push w.online) y) [
          | inl same ↦ inl same
          | inr (some_ok, written) ↦
              let (merged, founded, supported) = admits-checked w keys t c h in
              inr (
                c,
                merged,
                founded,
                supported,
                applied_if (any_applied w.push w.online) refl some_ok,
                written,
              )
        ]
      where
        applied_if :
            (b : Bool)
            → any_applied w.push w.online ≡ b
            → ltb 0 (tally w.version w.push versions w.online).ok_count ≡ true
            → b ≡ true
        applied_if true e h = refl
        applied_if false e h = cc (rw (ok_count_none w.version w.push versions w.online e) at h)

orphans-effective :
    (parses : Option Json → Option Json → Bool) (keys : List ResKey) (t : Tables) (c : Config)
    → effective parses keys t ≡ ok c
    → orphans t (patches keys t.drafts) ≡ c.orphans
unfolding effective
orphans-effective parses keys t c h =
    let ds = patches keys t.drafts in
    let (rs, routed, h1) = >>=-eq-ok (merge_rows route merge_into ds t.routes) _ h in
    let (us, ruled, h2) = >>=-eq-ok (merge_rows rule merge_rule_draft ds t.rules) _ h1 in
    let (ps, policed, h3) = >>=-eq-ok (merge_rows global merge_into ds t.policies) _ h2 in
    last (parses (spec_of "tls" none ps) (spec_of "log" none ps)) _ h3
  where
    last : (b : Bool) (d : Config) → (if b then ok d else err) ≡ ok c → d.orphans ≡ c.orphans
    last true d h = let same : d ≡ c = cc h in ap (λ (x : Config). x.orphans) same
    last false d h = cc

orphan_found :
    (keys : List ResKey) (t : Tables) (k : ResKey) (p : Json) (before after : List (ResKey × Json))
    → selected keys k ≡ true
    → has_base t k ≡ false
    → orphans t (patches keys (before ++ (k, p) ∷ after)) ≢ []
unfolding patches orphans
orphan_found keys t k p [] after chosen alone h = cc (rw (chosen, alone) at h)
orphan_found keys t k p ((j, q) ∷ before) after chosen alone h =
    elim (Bool-cases (selected keys j)) [
      | inr left ↦ orphan_found keys t k p before after chosen alone (rw left at h)
      | inl also ↦ elim (Bool-cases (has_base t j)) [
        | inl based ↦ orphan_found keys t k p before after chosen alone (rw (also, based) at h)
        | inr more ↦ cc (rw (also, more) at h)
      ]
    ]

-- A deployment with a selected draft that has no resource under it touches no node and leaves the
-- tables, that draft included, as they are.
pub orphan_kept :
    (w : World) (keys : List ResKey) (t : Tables) (versions : Assoc String) (k : ResKey) (p : Json)
    (before after : List (ResKey × Json))
    → t.drafts ≡ before ++ (k, p) ∷ after
    → selected keys k ≡ true
    → has_base t k ≡ false
    → ((deploy w keys t versions).tables ≡ t) × ((deploy w keys t versions).results ≡ [])
unfolding deploy after_check
orphan_kept w keys t versions k p before after there chosen alone = by_check (checked w keys t) refl
  where
    by_check :
        (o : Checked)
        → checked w keys t ≡ o
        → ((after_check w keys t versions o).tables ≡ t)
          × ((after_check w keys t versions o).results ≡ [])
    by_check (refuses why) h = (refl, refl)
    by_check (admits c) h =
        let (merged, founded, supported) = admits-checked w keys t c h in
        elim (orphan_found keys t k p before after chosen alone (
          ap (λ ds. orphans t (patches keys ds)) (sym there)
          ∙ orphans-effective w.parses keys t c merged
          ∙ founded)) [ ]

-- Where a deployment has a result of any node, every node in service knows the type of every rule
-- that was pushed enabled and bound, of the types that the verification endpoint has to know.
pub pushed_is_supported :
    (w : World) (keys : List ResKey) (t : Tables) (versions : Assoc String) (c : Config)
    (first : DeployResult) (others : List DeployResult) (before : List Node) (n : Node)
    (after : List Node) (id : String) (r : Fields)
    → (deploy w keys t versions).results ≡ first ∷ others
    → effective w.parses keys t ≡ ok c
    → w.nodes ≡ some (before ++ n ∷ after)
    → n.is_drained ≡ false
    → lookup id c.rules ≡ some r
    → is_effective r ≡ true
    → has (type_of r) verified_kinds ≡ true
    → node_supports n.verify_kinds (type_of r) ≡ true
unfolding deploy after_check
pushed_is_supported w keys t versions c first others before n after id r pushed merged nodes active
      there on checks =
    by_check (checked w keys t) refl pushed
  where
    by_check :
        (o : Checked)
        → checked w keys t ≡ o
        → (after_check w keys t versions o).results ≡ first ∷ others
        → node_supports n.verify_kinds (type_of r) ≡ true
    by_check (refuses why) h g = cc
    by_check (admits d) h g =
        let (merged_too, founded, supported) = admits-checked w keys t d h in
        let same : d ≡ c = cc (merged, merged_too) in
        supported_if_checked before n after c.rules id r
          (ap (λ x. unsupported_rules x c.rules) (sym nodes)
            ∙ ap (λ x. unsupported_rules w.nodes x.rules) (sym same)
            ∙ supported)
          active there on checks
