-- ===== src/Deploy/Merge/Samples.antt =====
-- Drafts over concrete resources.
use edge_caddy.Prelude.{false, some, ◌≡◌, ◌≢◌, refl}
use edge_caddy.Deploy.Json.{null, num, str, obj, Fields, end, field, get, put}
use edge_caddy.Deploy.Merge.{ok, changes_type, merge_fields, merge_rule_draft, merge_draft}
use edge_caddy.Deploy.Keys.{rule}
use edge_caddy.Deploy.Merge.Laws.{nested_siblings_kept, null_base_panics}

abbrev spec : Fields
spec = field "requests" (num 300) (field "window_s" (num 10) end)

abbrev limit : Fields
limit = field "type" (str "rate_limit") (field "spec" (obj spec) end)

abbrev edit : Fields
edit = field "window_s" (num 60) (field "rate_key" (str "ip") end)

abbrev draft : Fields
draft = field "spec" (obj edit) end

abbrev edited : Fields
edited = field "type" (str "rate_limit") (
    field "spec"
      (obj
        (field "requests" (num 300) (field "window_s" (num 60) (field "rate_key" (str "ip") end))))
      end)

edit_merged : merge_fields draft limit ≡ ok edited
unfolding merge_fields get put
edit_merged = refl

edit_merged_rule : merge_draft (rule "limit") limit (obj draft) ≡ ok edited
unfolding merge_draft merge_rule_draft merge_fields get put
edit_merged_rule = refl

nested_siblings_kept_example :
    (mc : Fields) × (get "spec" edited ≡ some (obj mc)) × (get "requests" mc ≡ get "requests" spec)
unfolding get changes_type
nested_siblings_kept_example =
    nested_siblings_kept (rule "limit") draft limit edited edit spec "spec" "requests" false
      (refl, tt) (refl, (refl, tt)) refl refl refl refl edit_merged_rule

-- A draft of another type replaces the fields of the old type.
retyped :
    merge_rule_draft limit
      (obj (field "type" (str "ip_whitelist") (field "spec" (obj (field "ips" null end)) end)))
    ≡ ok (field "type" (str "ip_whitelist") (field "spec" (obj (field "ips" null end)) end))
unfolding merge_rule_draft merge_fields get put
retyped = refl

abbrev bare_policy : Fields
bare_policy = field "id" (str "log") (field "spec" null end)

null_base_panics_example : merge_fields draft bare_policy ≢ ok edited
unfolding get
null_base_panics_example =
    null_base_panics draft bare_policy edited (field "rate_key" (str "ip") end) "spec" "window_s"
      (num 60) (refl, tt) refl refl
