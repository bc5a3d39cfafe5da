-- ===== src/Deploy/Effective/Laws.antt =====
-- What `effective` has under each id.
use edge_caddy.Prelude.{
  true, false, String, Option, none, some, List, [], ◌∷◌, ◌≡◌, refl, ap, subst, str_eq, eq_iff,
  Bool-cases, inl, inr,
}
use edge_caddy.Prelude.Assoc.{Assoc, lookup, Distinct}
use edge_caddy.Deploy.Keys.{ResKey, route, rule, global, other, key_eq, selected}
use edge_caddy.Deploy.Json.{Json, Fields}
use edge_caddy.Deploy.Merge.{Outcome, ok}
use edge_caddy.Deploy.Merge.Laws.{>>=-eq-ok}
use edge_caddy.Deploy.Effective.{Row, encode, patches, patch_of, merge_one, merge_rows}

key_eq-eq : (j k : ResKey) → key_eq j k ≡ true → j ≡ k
unfolding key_eq
key_eq-eq (route a) (route b) h = ap route ((eq_iff a b).0 h)
key_eq-eq (rule a) (rule b) h = ap rule ((eq_iff a b).0 h)
key_eq-eq (global a) (global b) h = ap global ((eq_iff a b).0 h)
key_eq-eq (other a) (other b) h = ap other ((eq_iff a b).0 h)
key_eq-eq _ _ h = cc

-- A draft that was not selected is not among the patches.
pub patch_of-patches :
    (keys : List ResKey) (k : ResKey) (drafts : List (ResKey × Json))
    → selected keys k ≡ false
    → patch_of k (patches keys drafts) ≡ none
unfolding patch_of patches
patch_of-patches keys k [] h = refl
patch_of-patches keys k ((j, p) ∷ ds) h = elim (Bool-cases (selected keys j)) [
  | inl chosen ↦ elim (Bool-cases (key_eq j k)) [
    | inl same ↦ cc (key_eq-eq j k same)
    | inr apart ↦ rw chosen (rw apart (patch_of-patches keys k ds h))
  ]
  | inr left ↦ rw left (patch_of-patches keys k ds h)
]

pub patches_none : (drafts : List (ResKey × Json)) → patches [] drafts ≡ []
unfolding patches selected
patches_none [] = refl
patches_none ((j, p) ∷ ds) = patches_none ds

-- How the resource of a row and the merged one belong together.
abbrev pub MergedAt :
    (Fields → Json → Outcome Fields) → Option Json → Option Row → Option Fields → Type 0
MergedAt merge patch none none = Unit
MergedAt merge patch (some row) (some m) = merge_one merge patch row ≡ ok m
MergedAt merge patch none (some m) = ⊥
MergedAt merge patch (some row) none = ⊥

module _ (key : String → ResKey) (merge : Fields → Json → Outcome Fields)
    (ds : List (ResKey × Json)) where
  merge_rows-cons :
      (i : String) (row : Row) (rows : Assoc Row) (cs : Assoc Fields)
      → merge_rows key merge ds ((i, row) ∷ rows) ≡ ok cs
      → (m : Fields) × (others : Assoc Fields) × (merge_one merge (patch_of (key i) ds) row ≡ ok m)
        × (merge_rows key merge ds rows ≡ ok others)
        × (cs ≡ (i, m) ∷ others)
  unfolding merge_rows
  merge_rows-cons i row rows cs h =
      let (m, one, after) = >>=-eq-ok (merge_one merge (patch_of (key i) ds) row) _ h in
      let (others, rest, last) = >>=-eq-ok (merge_rows key merge ds rows) _ after in
      (m, others, one, rest, cc last)

  pub lookup-merge_rows :
      (rows : Assoc Row) (cs : Assoc Fields) (id : String)
      → merge_rows key merge ds rows ≡ ok cs
      → MergedAt merge (patch_of (key id) ds) (lookup id rows) (lookup id cs)
  unfolding lookup
  lookup-merge_rows [] [] id h = tt
  lookup-merge_rows [] (c ∷ cs) id h = unfold merge_rows in cc
  lookup-merge_rows ((i, row) ∷ rows) cs id h =
      let (m, others, one, rest, shape) = merge_rows-cons i row rows cs h in
      rw shape (elim (Bool-cases (str_eq i id)) [
        | inl same ↦ rw same (
            subst (λ j. merge_one merge (patch_of (key j) ds) row ≡ ok m) ((eq_iff i id).0 same)
              one)
        | inr apart ↦ rw apart (lookup-merge_rows rows others id rest)
      ])

  absent_merged :
      (patch : Option Json) (row : Option Row) (m : Option Fields)
      → row ≡ none
      → MergedAt merge patch row m
      → m ≡ none
  absent_merged patch none none absent placed = refl
  absent_merged patch none (some m) absent placed = elim placed [ ]
  absent_merged patch (some row) m absent placed = cc

  absent-merge_rows :
      (rows : Assoc Row) (cs : Assoc Fields) (id : String)
      → merge_rows key merge ds rows ≡ ok cs
      → lookup id rows ≡ none
      → lookup id cs ≡ none
  absent-merge_rows rows cs id h absent =
      absent_merged (patch_of (key id) ds) (lookup id rows) (lookup id cs) absent
        (lookup-merge_rows rows cs id h)

  pub merge_rows-Distinct :
      (rows : Assoc Row) (cs : Assoc Fields)
      → merge_rows key merge ds rows ≡ ok cs
      → Distinct rows
      → Distinct cs
  merge_rows-Distinct [] [] h d = tt
  merge_rows-Distinct [] (c ∷ cs) h d = unfold merge_rows in cc
  merge_rows-Distinct ((i, row) ∷ rows) cs h d =
      let (m, others, one, rest, shape) = merge_rows-cons i row rows cs h in
      rw shape (absent-merge_rows rows others i rest d.0, merge_rows-Distinct rows others rest d.1)

-- Without drafts every resource is its own row.
abbrev pub encode_all : Assoc Row → Assoc Fields
encode_all [] = []
encode_all ((id, row) ∷ rest) = (id, encode row) ∷ encode_all rest

abbrev pub encoded : Option Row → Option Fields
encoded none = none
encoded (some row) = some (encode row)

pub merge_rows_plain :
    (key : String → ResKey) (merge : Fields → Json → Outcome Fields) (rows : Assoc Row)
    → merge_rows key merge [] rows ≡ ok (encode_all rows)
unfolding merge_rows patch_of
merge_rows_plain key merge [] = refl
merge_rows_plain key merge ((id, row) ∷ rows) = rw (merge_rows_plain key merge rows) refl

pub lookup-encode_all :
    (rows : Assoc Row) (id : String) → lookup id (encode_all rows) ≡ encoded (lookup id rows)
unfolding lookup
lookup-encode_all [] id = refl
lookup-encode_all ((i, row) ∷ rows) id = elim (Bool-cases (str_eq i id)) [
  | inl same ↦ rw same refl
  | inr apart ↦ rw apart (lookup-encode_all rows id)
]
