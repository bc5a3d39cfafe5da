-- ===== src/Deploy/Merge/Laws.antt =====
-- What a draft changes, and what it leaves alone.
use edge_caddy.Prelude.{
  Bool, true, false, ◌&&◌, if◌then◌else◌, String, Option, none, some, ◌≡◌, ◌≢◌, refl, sym, subst,
  ◌∙◌, str_eq, Bool-cases, inl, inr,
}
use edge_caddy.Deploy.Json.{Json, null, obj, Fields, end, field, get, put, Distinct}
use edge_caddy.Deploy.Json.Laws.{get-put, get_same}
use edge_caddy.Deploy.Keys.{ResKey, route, rule, global, other}
use edge_caddy.Deploy.Merge.{
  Outcome, ok, err, panic, ◌>>=◌, merge_fields, merge_value, changes_type, clear_spec, merge_into,
  merge_rule_draft, merge_draft,
}

-- What a merge leaves under a key: the merged value where the patch has the key, else what was there.
abbrev pub expected : Option Json → Option Json → Outcome (Option Json)
expected none cur = ok cur
expected (some v) cur = merge_value v cur >>= λ x. ok (some x)

-- A bind that ends well.
pub >>=-eq-ok :
    {A B : Type 0} (first : Outcome A) (then_run : A → Outcome B) {end_value : B}
    → (first >>= then_run) ≡ ok end_value
    → (between : A) × (first ≡ ok between) × (then_run between ≡ ok end_value)
>>=-eq-ok (ok between) then_run well = (between, refl, well)
>>=-eq-ok err then_run well = cc
>>=-eq-ok panic then_run well = cc

-- A merge of a patch that has no key twice, if it ends well, has under every key the merge of the
-- two values, where the patch has the key, and otherwise the value that was there.
pub get-merge_fields :
    (src dst m : Fields) (k : String)
    → Distinct src
    → merge_fields src dst ≡ ok m
    → expected (get k src) (get k dst) ≡ ok (get k m)
unfolding merge_fields get
get-merge_fields end dst m k d h = cc
get-merge_fields (field j v rest) dst m k d h =
    let (x, merged, after) =
      >>=-eq-ok (merge_value v (get j dst)) (λ y. merge_fields rest (put j y dst)) h in
    let ih = get-merge_fields rest (put j x dst) m k d.1 after in
    elim (Bool-cases (str_eq j k)) [
      | inl same ↦ rw same (
          under_same (get_same j k dst same) merged
            (rw (sym (get_same j k rest same) ∙ d.0, get-put j k x dst, same) at ih))
      | inr apart ↦ rw apart (rw (get-put j k x dst, apart) at ih)
    ]
  where
    under_same :
        {x : Json} {o : Option Json}
        → get j dst ≡ get k dst
        → merge_value v (get j dst) ≡ ok x
        → ok (some x) ≡ ok o
        → (merge_value v (get k dst) >>= λ y. ok (some y)) ≡ ok o
    under_same place merged found = rw (← place) (rw merged found)

wrapped_object :
    (o : Outcome Fields) (after : Option Json)
    → ((o >>= λ m. ok (obj m)) >>= λ x. ok (some x)) ≡ ok after
    → (mc : Fields) × (o ≡ ok mc) × (after ≡ some (obj mc))
wrapped_object (ok mc) after h = (mc, refl, cc)
wrapped_object err after h = cc
wrapped_object panic after h = cc

-- A merge of two objects that stand under one key.
pub merged_object :
    (w c : Fields) (after : Option Json)
    → expected (some (obj w)) (some (obj c)) ≡ ok after
    → (mc : Fields) × (merge_fields w c ≡ ok mc) × (after ≡ some (obj mc))
unfolding merge_value
merged_object w c after h = wrapped_object (merge_fields w c) after h

-- Two objects that stand under one key, in the draft and in the resource: the keys that the draft's
-- does not name keep their values.
siblings_kept :
    (src dst m new c : Fields) (k j : String)
    → Distinct src
    → Distinct new
    → get k src ≡ some (obj new)
    → get k dst ≡ some (obj c)
    → get j new ≡ none
    → merge_fields src dst ≡ ok m
    → (mc : Fields) × (get k m ≡ some (obj mc)) × (get j mc ≡ get j c)
siblings_kept src dst m new c k j d dn there here unnamed merged =
    let at_k : expected (some (obj new)) (some (obj c)) ≡ ok (get k m) =
      subst (λ cur_k. expected (some (obj new)) cur_k ≡ ok (get k m)) here
        (subst (λ p. expected p (get k dst) ≡ ok (get k m)) there
          (get-merge_fields src dst m k d merged)) in
    let (mc, inner, found) = merged_object new c (get k m) at_k in
    (mc, found, kept mc (get-merge_fields new c mc j dn inner))
  where
    kept : (mc : Fields) → expected (get j new) (get j c) ≡ ok (get j mc) → get j mc ≡ get j c
    kept mc h = cc (rw unnamed at h)

-- The draft replaces the specification of its resource: it is a rule's, and names another type.
abbrev pub replaces_spec : ResKey → Fields → Fields → Outcome Bool
replaces_spec (rule id) src dst = changes_type (get "type" src) (get "type" dst)
replaces_spec _ src dst = ok false

merge_draft_lem :
    (key : ResKey) (src dst m : Fields) (replaced : Bool)
    → replaces_spec key src dst ≡ ok replaced
    → merge_draft key dst (obj src) ≡ ok m
    → merge_fields src (clear_spec replaced dst) ≡ ok m
unfolding merge_draft merge_rule_draft merge_into clear_spec
merge_draft_lem (rule id) src dst m replaced e h = rw e at h
merge_draft_lem (route id) src dst m true e h = cc
merge_draft_lem (route id) src dst m false e h = h
merge_draft_lem (global id) src dst m true e h = cc
merge_draft_lem (global id) src dst m false e h = h
merge_draft_lem (other id) src dst m true e h = cc
merge_draft_lem (other id) src dst m false e h = h

get-clear_spec :
    (replaced : Bool) (k : String) (dst c : Fields)
    → get k dst ≡ some (obj c)
    → get k (clear_spec replaced dst) ≡ some (obj (if replaced && str_eq "spec" k then end else c))
unfolding clear_spec
get-clear_spec false k dst c here = here
get-clear_spec true k dst c here = elim (Bool-cases (str_eq "spec" k)) [
  | inl spec ↦ rw (get-put "spec" k (obj end) dst, spec) refl
  | inr apart ↦ rw (get-put "spec" k (obj end) dst, apart) here
]

-- Where a draft and its resource both have an object under a field, no key of the draft or of its
-- object is there twice, and the merge of the kind of resource ends well, the merged resource has an
-- object there too. A key of the object that the draft does not name has the value that it had; but
-- where the draft is a rule's and changes the type, such a key of the specification is gone.
pub nested_siblings_kept :
    (key : ResKey) (src dst m new c : Fields) (k j : String) (replaced : Bool)
    → Distinct src
    → Distinct new
    → get k src ≡ some (obj new)
    → get k dst ≡ some (obj c)
    → get j new ≡ none
    → replaces_spec key src dst ≡ ok replaced
    → merge_draft key dst (obj src) ≡ ok m
    → (mc : Fields) × (get k m ≡ some (obj mc))
      × (get j mc ≡ (if replaced && str_eq "spec" k then none else get j c))
unfolding get
nested_siblings_kept key src dst m new c k j replaced d dn there here unnamed e merged =
    let cleared : Fields = if replaced && str_eq "spec" k then end else c in
    let (mc, found, kept) =
      siblings_kept src (clear_spec replaced dst) m new cleared k j d dn there
        (get-clear_spec replaced k dst c here) unnamed
        (merge_draft_lem key src dst m replaced e merged) in
    (mc, found, kept ∙ get_cleared (replaced && str_eq "spec" k))
  where
    get_cleared : (b : Bool) → get j (if b then end else c) ≡ (if b then none else get j c)
    get_cleared true = refl
    get_cleared false = refl

panics_there :
    (o : Option Json) (new : Fields) (x : Json) (i : String) (after : Option Json)
    → o ≡ some null
    → expected (some (obj (field i x new))) o ≢ ok after
unfolding merge_value
panics_there o new x i after e h = cc (rw e at h)

-- Where the resource has `null` under a field and the draft, which has no key twice, has an object
-- with at least one key there, the merge does not end well.
pub null_base_panics :
    (src dst m new : Fields) (k i : String) (x : Json)
    → Distinct src
    → get k src ≡ some (obj (field i x new))
    → get k dst ≡ some null
    → merge_fields src dst ≢ ok m
null_base_panics src dst m new k i x d there here merged =
    panics_there (get k dst) new x i (get k m) here (
      subst (λ p. expected p (get k dst) ≡ ok (get k m)) there
        (get-merge_fields src dst m k d merged))
