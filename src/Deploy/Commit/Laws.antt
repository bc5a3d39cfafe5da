-- ===== src/Deploy/Commit/Laws.antt =====
-- After a commit the tables stand for what was pushed.
use edge_caddy.Prelude.{
  ◌+◌, Bool, true, false, String, Option, none, some, List, [], ◌∷◌, ◌≡◌, refl, sym, ap, ◌∙◌,
  str_eq, eq_iff, arith, if◌then◌else◌, Bool-cases, inl, inr,
}
use edge_caddy.Prelude.Assoc.{Assoc, lookup, lookup-insert, lookup_same, Distinct}
use edge_caddy.Deploy.Keys.{ResKey, selected}
use edge_caddy.Deploy.Json.{Fields, get}
use edge_caddy.Deploy.Effective.{Row, name_of}
use edge_caddy.Deploy.Commit.{upsert_body, upsert, upsert_selected, bump}

-- Every resource of the configuration carries the name that it stands under: no draft renamed it.
abbrev pub KeepNames : String → Assoc Fields → Type 0
KeepNames name [] = Unit
KeepNames name ((id, merged) ∷ rest) = (name_of (get name merged) ≡ id) × KeepNames name rest

-- The row that the loop leaves under an id, from the merged resource there and the row before.
abbrev pub written : Bool → Option Fields → Option Row → Option Row
written false merged row = row
written true none row = row
written true (some m) row = some (upsert_body m row)

-- What is stored for a resource.
abbrev pub stored_at : (Fields → Fields) → Option Fields → Option Fields
stored_at store none = none
stored_at store (some m) = some (store m)

lookup-write :
    (sel : Bool) (i id : String) (m : Fields) (rows : Assoc Row)
    → lookup id (if sel then upsert i m rows else rows)
      ≡ (if str_eq i id then written sel (some m) (lookup id rows) else lookup id rows)
unfolding upsert
lookup-write false i id m rows = ground arith
lookup-write true i id m rows =
    lookup-insert i id (upsert_body m (lookup i rows)) rows ∙ (elim (Bool-cases (str_eq i id)) [
      | inl same ↦ rw same (ap (λ o. some (upsert_body m o)) (lookup_same i id rows same))
      | inr apart ↦ rw apart refl
    ])

written-none : (sel : Bool) (row : Option Row) → written sel none row ≡ row
written-none true row = refl
written-none false row = refl

abbrev pub bump_if : Bool → Option Row → Option Row
bump_if sel none = none
bump_if sel (some row) = some (if sel then record row { version = row.version + 1 } else row)

module _ (key : String → ResKey) (name : String) (store : Fields → Fields)
    (keys : List ResKey) where
  pub lookup-upsert_selected :
      (cs : Assoc Fields) (rows : Assoc Row) (id : String)
      → Distinct cs
      → KeepNames name cs
      → lookup id (upsert_selected key name store keys cs rows)
        ≡ written (selected keys (key id)) (stored_at store (lookup id cs)) (lookup id rows)
  unfolding upsert_selected lookup
  lookup-upsert_selected [] rows id d n =
      sym (written-none (selected keys (key id)) (lookup id rows))
  lookup-upsert_selected ((i, m) ∷ cs) rows id d n = rw n.0 (
      lookup-upsert_selected cs (if selected keys (key i) then upsert i (store m) rows else rows) id
        d.1 n.1
      ∙ (elim (Bool-cases (str_eq i id)) [
        | inl same ↦ rw (lookup-write (selected keys (key i)) i id (store m) rows) (
            rw (sym (lookup_same i id cs same) ∙ d.0, same)
              (written-none (selected keys (key id)) _
                ∙ ap (λ j. written (selected keys (key j)) (some (store m)) (lookup id rows))
                    ((eq_iff i id).0 same)))
        | inr apart ↦ rw (lookup-write (selected keys (key i)) i id (store m) rows) (rw apart refl)
      ]))

  pub lookup-bump :
      (rows : Assoc Row) (id : String)
      → lookup id (bump key keys rows) ≡ bump_if (selected keys (key id)) (lookup id rows)
  unfolding bump lookup
  lookup-bump [] id = refl
  lookup-bump ((i, row) ∷ rows) id = elim (Bool-cases (str_eq i id)) [
    | inl same ↦
        rw same (ap (λ j. bump_if (selected keys (key j)) (some row)) ((eq_iff i id).0 same))
    | inr apart ↦ rw apart (lookup-bump rows id)
  ]
