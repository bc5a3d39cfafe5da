-- ===== src/Deploy/Commit/Names.antt =====
-- A commit keeps ids apart and rows under their own names; with both, a spec is found by its id.
use edge_caddy.Prelude.{
  ◌+◌, Bool, true, false, String, Option, none, some, List, [], ◌∷◌, ◌≡◌, refl, sym, ap, ◌∙◌,
  str_eq, eq_iff, if◌then◌else◌, Bool-cases, inl, inr,
}
use edge_caddy.Prelude.Assoc.{Assoc, lookup, insert, lookup_same, Distinct, insert-Distinct}
use edge_caddy.Deploy.Keys.{ResKey, selected}
use edge_caddy.Deploy.Json.{Json, num, Fields, get}
use edge_caddy.Deploy.Json.Laws.{get-put}
use edge_caddy.Deploy.Effective.{Row, encode, name_of, spec_of}
use edge_caddy.Deploy.Effective.Laws.{encode_all, encoded, lookup-encode_all}
use edge_caddy.Deploy.Commit.{upsert_body, upsert, upsert_selected, bump}
use edge_caddy.Deploy.Commit.Laws.{KeepNames, bump_if, lookup-bump}

-- A field of a resource, where there is the resource.
abbrev pub field_at : String → Option Fields → Option Json
field_at k none = none
field_at k (some m) = get k m

abbrev spec_at : Option Json → Option Fields → Option Json
spec_at before none = before
spec_at before (some m) = get "spec" m

spec_of-lookup :
    (id : String) (before : Option Json) (ps : Assoc Fields)
    → Distinct ps
    → KeepNames "id" ps
    → spec_of id before ps ≡ spec_at before (lookup id ps)
unfolding spec_of lookup
spec_of-lookup id before [] d n = refl
spec_of-lookup id before ((i, p) ∷ ps) d n = rw n.0 (elim (Bool-cases (str_eq i id)) [
  | inl same ↦ rw same (
      spec_of-lookup id (get "spec" p) ps d.1 n.1
      ∙ ap (spec_at (get "spec" p)) (sym (lookup_same i id ps same) ∙ d.0))
  | inr apart ↦ rw apart (spec_of-lookup id before ps d.1 n.1)
])

pub spec_of-field_at :
    (id : String) (ps : Assoc Fields)
    → Distinct ps
    → KeepNames "id" ps
    → spec_of id none ps ≡ field_at "spec" (lookup id ps)
spec_of-field_at id ps d n = spec_of-lookup id none ps d n ∙ spec_at_none (lookup id ps)
  where
    spec_at_none : (m : Option Fields) → spec_at none m ≡ field_at "spec" m
    spec_at_none none = refl
    spec_at_none (some m) = refl

pub get-encode :
    (k : String) (row : Row) → str_eq "version" k ≡ false → get k (encode row) ≡ get k row.body
unfolding encode
get-encode k row h = rw (get-put "version" k (num row.version) row.body, h) refl

-- A name that is there once more.
lookup-encode_all-none :
    (rows : Assoc Row) (id : String) → lookup id rows ≡ none → lookup id (encode_all rows) ≡ none
lookup-encode_all-none rows id h = lookup-encode_all rows id ∙ ap encoded h

pub encode_all-Distinct : (rows : Assoc Row) → Distinct rows → Distinct (encode_all rows)
encode_all-Distinct [] d = tt
encode_all-Distinct ((i, row) ∷ rows) d =
    (lookup-encode_all-none rows i d.0, encode_all-Distinct rows d.1)

module _ (key : String → ResKey) (name : String) (store : Fields → Fields)
    (keys : List ResKey) where
  pub bump-Distinct : (rows : Assoc Row) → Distinct rows → Distinct (bump key keys rows)
  unfolding bump
  bump-Distinct [] d = tt
  bump-Distinct ((i, row) ∷ rows) d = (
    lookup-bump key name store keys rows i ∙ ap (bump_if (selected keys (key i))) d.0,
    bump-Distinct rows d.1,
  )

  upsert-Distinct :
      (sel : Bool) (i : String) (m : Fields) (rows : Assoc Row)
      → Distinct rows
      → Distinct (if sel then upsert i m rows else rows)
  unfolding upsert
  upsert-Distinct true i m rows d = insert-Distinct i (upsert_body m (lookup i rows)) rows d
  upsert-Distinct false i m rows d = d

  pub upsert_selected-Distinct :
      (cs : Assoc Fields) (rows : Assoc Row)
      → Distinct rows
      → Distinct (upsert_selected key name store keys cs rows)
  unfolding upsert_selected
  upsert_selected-Distinct [] rows d = d
  upsert_selected-Distinct ((_, m) ∷ cs) rows d = upsert_selected-Distinct cs _ (
      upsert-Distinct (selected keys (key (name_of (get name m)))) (name_of (get name m)) (store m)
        rows d)

  module _ (plain : str_eq "version" name ≡ false)
      (keeps : (m : Fields) → get name (store m) ≡ get name m) where
    name_of-encode : (row : Row) → name_of (get name (encode row)) ≡ name_of (get name row.body)
    name_of-encode row = ap name_of (get-encode name row plain)

    insert-KeepNames :
        (i : String) (row : Row) (rows : Assoc Row)
        → name_of (get name row.body) ≡ i
        → KeepNames name (encode_all rows)
        → KeepNames name (encode_all (insert i row rows))
    unfolding insert
    insert-KeepNames i row [] e n = (name_of-encode row ∙ e, tt)
    insert-KeepNames i row ((j, w) ∷ rows) e n = elim (Bool-cases (str_eq j i)) [
      | inl same ↦ rw same (name_of-encode row ∙ e ∙ sym ((eq_iff j i).0 same), n.1)
      | inr apart ↦ rw apart (n.0, insert-KeepNames i row rows e n.1)
    ]

    body-upsert_body : (m : Fields) (row : Option Row) → (upsert_body m row).body ≡ m
    unfolding upsert_body
    body-upsert_body m none = refl
    body-upsert_body m (some row) = refl

    upsert-KeepNames :
        (sel : Bool) (m : Fields) (rows : Assoc Row)
        → KeepNames name (encode_all rows)
        → KeepNames name
            (encode_all (if sel then upsert (name_of (get name m)) (store m) rows else rows))
    unfolding upsert
    upsert-KeepNames true m rows n =
        insert-KeepNames (name_of (get name m))
          (upsert_body (store m) (lookup (name_of (get name m)) rows)) rows
          (ap (λ b. name_of (get name b)) (body-upsert_body (store m) _) ∙ ap name_of (keeps m)) n
    upsert-KeepNames false m rows n = n

    pub upsert_selected-KeepNames :
        (cs : Assoc Fields) (rows : Assoc Row)
        → KeepNames name (encode_all rows)
        → KeepNames name (encode_all (upsert_selected key name store keys cs rows))
    unfolding upsert_selected
    upsert_selected-KeepNames [] rows n = n
    upsert_selected-KeepNames ((_, m) ∷ cs) rows n =
        upsert_selected-KeepNames cs _
          (upsert-KeepNames (selected keys (key (name_of (get name m)))) m rows n)

    body_bumped :
        (sel : Bool) (row : Row)
        → (if sel then record row { version = row.version + 1 } else row).body ≡ row.body
    body_bumped true row = refl
    body_bumped false row = refl

    pub bump-KeepNames :
        (rows : Assoc Row)
        → KeepNames name (encode_all rows)
        → KeepNames name (encode_all (bump key keys rows))
    unfolding bump
    bump-KeepNames [] n = tt
    bump-KeepNames ((i, row) ∷ rows) n = (
      name_of-encode _
          ∙ ap (λ b. name_of (get name b)) (body_bumped (selected keys (key i)) row)
          ∙ sym (name_of-encode row)
          ∙ n.0,
      bump-KeepNames rows n.1,
    )
