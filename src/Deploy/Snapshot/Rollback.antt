-- ===== src/Deploy/Snapshot/Rollback.antt =====
-- The drafts of a rollback, merged over the live resource: what comes back, and what does not.
use edge_caddy.Prelude.{
  Bool, true, false, ◌&&◌, String, Option, none, some, ◌≡◌, refl, sym, ap, ◌∙◌, ◌⊎◌, str_eq, eq_iff,
  arith, if◌then◌else◌, Bool-cases, inl, inr, subst,
}
use edge_caddy.Deploy.Json.{
  Json, null, bool, num, str, arr, obj, Fields, end, field, get, put, Distinct,
}
use edge_caddy.Deploy.Json.Laws.{get_same}
use edge_caddy.Deploy.Keys.{ResKey}
use edge_caddy.Deploy.Merge.{ok, merge_fields, merge_value, merge_draft}
use edge_caddy.Deploy.Merge.Laws.{expected, get-merge_fields, replaces_spec, nested_siblings_kept}
use edge_caddy.Deploy.Snapshot.{json_equal, same_as, field_diff}

-- What the patch holds under a key that is not "version".
abbrev pub wanted_change : Option Json → Option Json → Option Json
wanted_change none cur = none
wanted_change (some v) cur = if same_as cur v then none else some v

pub get-field_diff :
    (cur want : Fields) (k : String)
    → Distinct want
    → str_eq k "version" ≡ false
    → get k (field_diff cur want) ≡ wanted_change (get k want) (get k cur)
unfolding get field_diff
get-field_diff cur end k d named = refl
get-field_diff cur (field j v rest) k d named = elim (Bool-cases (str_eq j k)) [
  | inl same ↦ ground (
    arith,
    eq_iff j k,
    eq_iff j "version",
    eq_iff k "version",
    get_same j k cur same,
    get_same j k rest same,
    d.0,
    get-field_diff cur rest k d.1 named,
  )
  | inr other ↦ ground (arith, get-field_diff cur rest k d.1 named)
]

pub field_diff-Distinct : (cur want : Fields) → Distinct want → Distinct (field_diff cur want)
unfolding field_diff
field_diff-Distinct cur end d = tt
field_diff-Distinct cur (field j v rest) d = elim (Bool-cases (str_eq j "version")) [
  | inl system ↦ rw system (field_diff-Distinct cur rest d.1)
  | inr named ↦ elim (Bool-cases (same_as (get j cur) v)) [
    | inl same ↦ rw (named, same) (field_diff-Distinct cur rest d.1)
    | inr changed ↦
        rw (named, changed)
          (
            get-field_diff cur rest j d.1 named ∙ ap (λ o. wanted_change o (get j cur)) d.0,
            field_diff-Distinct cur rest d.1,
          )
  ]
]

abbrev pub is_object : Json → Bool
is_object (obj m) = true
is_object _ = false

abbrev holds_object : Option Json → Bool
holds_object none = false
holds_object (some v) = is_object v

merge_value_replaces :
    (v : Json) (cur : Option Json)
    → is_object v ≡ false
    → holds_object cur ≡ false
    → merge_value v cur ≡ ok v
unfolding merge_value
merge_value_replaces null none p q = refl
merge_value_replaces null (some (obj m)) p q = cc
merge_value_replaces null (some _) p q = refl
merge_value_replaces (bool b) cur p q = refl
merge_value_replaces (num n) cur p q = refl
merge_value_replaces (str s) cur p q = refl
merge_value_replaces (arr xs) cur p q = refl
merge_value_replaces (obj m) cur p q = cc

-- What a rollback must leave under a field: the value of the snapshot, or the live value where that
-- has the same meaning.
abbrev pub IsRestored : Json → Option Json → Option Json → Type 0
IsRestored v cur after = (after ≡ some v) ⊎ ((after ≡ cur) × (same_as cur v ≡ true))

field-IsRestored_of :
    (v : Json) (cur after patched : Option Json)
    → is_object v ≡ false
    → holds_object cur ≡ false
    → patched ≡ wanted_change (some v) cur
    → expected patched cur ≡ ok after
    → IsRestored v cur after
field-IsRestored_of v cur after patched p q change merged = elim (Bool-cases (same_as cur v)) [
  | inl same ↦ inr (cc (rw (change, same) at merged), same)
  | inr other ↦ inl (cc (rw (change, other, merge_value_replaces v cur p q) at merged))
]

-- No value of the resource is itself an object, as in every route.
abbrev pub IsFlat : Fields → Type 0
IsFlat end = Unit
IsFlat (field k v m) = (is_object v ≡ false) × IsFlat m

get-IsFlat : (k : String) (m : Fields) → IsFlat m → holds_object (get k m) ≡ false
unfolding get
get-IsFlat k end f = refl
get-IsFlat k (field j v m) f = elim (Bool-cases (str_eq j k)) [
  | inl same ↦ rw same f.0
  | inr other ↦ rw other (get-IsFlat k m f.1)
]

field_diff-IsFlat : (cur want : Fields) → IsFlat want → IsFlat (field_diff cur want)
unfolding field_diff
field_diff-IsFlat cur end f = tt
field_diff-IsFlat cur (field j v rest) f = elim (Bool-cases (str_eq j "version")) [
  | inl system ↦ rw system (field_diff-IsFlat cur rest f.1)
  | inr named ↦ elim (Bool-cases (same_as (get j cur) v)) [
    | inl same ↦ rw (named, same) (field_diff-IsFlat cur rest f.1)
    | inr changed ↦ rw (named, changed) (f.0, field_diff-IsFlat cur rest f.1)
  ]
]

merge_value_flat :
    (v : Json) (cur : Option Json) → is_object v ≡ false → (x : Json) × (merge_value v cur ≡ ok x)
unfolding merge_value
merge_value_flat null (some (obj m)) p = (obj m, refl)
merge_value_flat null none p = (null, refl)
merge_value_flat null (some _) p = (null, refl)
merge_value_flat (bool b) cur p = (bool b, refl)
merge_value_flat (num n) cur p = (num n, refl)
merge_value_flat (str s) cur p = (str s, refl)
merge_value_flat (arr xs) cur p = (arr xs, refl)
merge_value_flat (obj m) cur p = cc

merge_fields_flat : (src dst : Fields) → IsFlat src → (m : Fields) × (merge_fields src dst ≡ ok m)
unfolding merge_fields
merge_fields_flat end dst f = (dst, refl)
merge_fields_flat (field k v rest) dst f =
    let (x, merged) = merge_value_flat v (get k dst) f.0 in
    let (m, done) = merge_fields_flat rest (put k x dst) f.1 in (m, rw merged done)

-- The draft of a rollback over a resource with no nested object, to a snapshot with none and no
-- key twice, merges without an error, and every field of the snapshot but "version" is then as in
-- the snapshot, or as live if that is equal as JSON.
pub flat_rollback :
    (cur want : Fields) (k : String) (v : Json)
    → IsFlat cur
    → IsFlat want
    → Distinct want
    → str_eq k "version" ≡ false
    → get k want ≡ some v
    → (m : Fields) × (merge_fields (field_diff cur want) cur ≡ ok m)
      × IsRestored v (get k cur) (get k m)
flat_rollback cur want k v flat_cur flat_want d named there =
    let (m, merged) =
      merge_fields_flat (field_diff cur want) cur (field_diff-IsFlat cur want flat_want) in
    (
      m,
      merged,
      field-IsRestored_of v (get k cur) (get k m) (get k (field_diff cur want))
          (subst (λ o. holds_object o ≡ false) there (get-IsFlat k want flat_want))
          (get-IsFlat k cur flat_cur)
          (get-field_diff cur want k d named ∙ ap (λ o. wanted_change o (get k cur)) there)
          (get-merge_fields (field_diff cur want) cur m k (field_diff-Distinct cur want d) merged),
    )

-- Where the snapshot and the live resource both have an object under a field other than "version",
-- the objects differ, no key of the snapshot's is there twice and the merge of the draft of a
-- rollback into the kind of resource ends well, there is an object after it, and a key that only the
-- live object has is still there, with its value: the object of the snapshot does not come back.
-- Only where the resource is a rule whose type the draft changes is the key of the specification gone.
pub rollback_keeps_extra :
    (key : ResKey) (cur want m c w : Fields) (k j : String) (x : Json) (replaced : Bool)
    → Distinct want
    → Distinct w
    → str_eq k "version" ≡ false
    → get k want ≡ some (obj w)
    → get k cur ≡ some (obj c)
    → json_equal (obj c) (obj w) ≡ false
    → get j c ≡ some x
    → get j w ≡ none
    → replaces_spec key (field_diff cur want) cur ≡ ok replaced
    → merge_draft key cur (obj (field_diff cur want)) ≡ ok m
    → (mc : Fields) × (get k m ≡ some (obj mc))
      × (get j mc ≡ (if replaced && str_eq "spec" k then none else some x))
unfolding same_as
rollback_keeps_extra key cur want m c w k j x replaced d dw named there here differ extra absent e
      merged =
    let (mc, found, kept) =
      nested_siblings_kept key (field_diff cur want) cur m w c k j replaced
        (field_diff-Distinct cur want d) dw patched here absent e merged in
    (mc, found, kept ∙ ap (λ o. if replaced && str_eq "spec" k then none else o) extra)
  where
    patched : get k (field_diff cur want) ≡ some (obj w)
    patched =
        get-field_diff cur want k d named
        ∙ subst (λ o. wanted_change (get k want) o ≡ some (obj w)) (sym here)
            (rw there (rw (same_as, differ) refl))
