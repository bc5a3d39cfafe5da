-- ===== src/Deploy/Merge.antt =====
-- Drafts over resources: `deepMerge`, `mergeInto` and `mergeRuleDraft` of deploy.go. A resource is the
-- object that it is encoded to; decoding the merged object into the Go type is left out.
pub mod Laws
mod Samples
use mathlib.Core.Option
use edge_caddy.Prelude.{Bool, true, false, not, String, Option, none, some, str_eq, if◌then◌else◌}
use edge_caddy.Deploy.Keys.{ResKey, rule}
use edge_caddy.Deploy.Json.{Json, null, bool, num, str, arr, obj, Fields, end, field, get, put}

-- How a merge ends: a value, an error of encoding/json, or a panic. The panic is a write into the nil
-- map that `null` decodes to.
pub data Outcome (A : Type 0) : Type 0 where
  ok : A → Outcome A
  err : Outcome A
  panic : Outcome A

infixl 5 ◌>>=◌
abbrev pub ◌>>=◌ : {A B : Type 0} → Outcome A → (A → Outcome B) → Outcome B
ok a >>= f = f a
err >>= f = err
panic >>= f = panic

-- `deepMerge(dst, src)`, with `src` first: its keys are visited in the order of the list.
-- `merge_value v cur` is what comes under a key of `src` with the value `v`, where `cur` is what `dst`
-- has there. Both `null` and an object decode into a map without an error.
unfoldable mutual
  pub merge_fields : Fields → Fields → Outcome Fields
  merge_fields end dst = ok dst
  merge_fields (field k v rest) dst =
      merge_value v (get k dst) >>= λ x. merge_fields rest (put k x dst)

  pub merge_value : Json → Option Json → Outcome Json
  merge_value (obj new) none = ok (obj new)
  merge_value (obj new) (some (obj cur)) = merge_fields new cur >>= λ m. ok (obj m)
  merge_value (obj end) (some null) = ok null
  merge_value (obj (field k v m)) (some null) = panic
  merge_value (obj new) (some _) = ok (obj new)
  merge_value null (some (obj cur)) = ok (obj cur)
  merge_value null _ = ok null
  merge_value (bool b) cur = ok (bool b)
  merge_value (num n) cur = ok (num n)
  merge_value (str s) cur = ok (str s)
  merge_value (arr xs) cur = ok (arr xs)

-- `mergeInto`
unfoldable pub merge_into : Fields → Json → Outcome Fields
merge_into base (obj patch) = merge_fields patch base
merge_into base null = ok base
merge_into base _ = err

-- The test of `mergeRuleDraft`: the patch names a type, and not the rule's.
unfoldable pub changes_type : Option Json → Option Json → Outcome Bool
changes_type none base = ok false
changes_type (some null) base = ok false
changes_type (some (str t)) (some (str s)) = ok (not (str_eq t s))
changes_type (some (str t)) _ = ok true
changes_type (some _) base = err

-- `base.Spec = model.RuleSpec{}`: every field of a `RuleSpec` is left out when it is empty.
unfoldable pub clear_spec : Bool → Fields → Fields
clear_spec true base = put "spec" (obj end) base
clear_spec false base = base

-- `mergeRuleDraft`
unfoldable pub merge_rule_draft : Fields → Json → Outcome Fields
unfolding changes_type clear_spec merge_into
merge_rule_draft base (obj patch) = changes_type (get "type" patch) (get "type" base) >>= λ changed.
    merge_into (clear_spec changed base) (obj patch)
merge_rule_draft base null = ok base
merge_rule_draft base _ = err

-- The merge of a draft into its resource, as `effective` calls it for each kind.
unfoldable pub merge_draft : ResKey → Fields → Json → Outcome Fields
unfolding merge_into merge_rule_draft
merge_draft (rule id) = merge_rule_draft
merge_draft _ = merge_into
