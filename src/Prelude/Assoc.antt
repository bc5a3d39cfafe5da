-- ===== src/Prelude/Assoc.antt =====
-- Go's `map[string]V` as an association list. A position in the list is one of the orders in which
-- `range` may visit the entries.
use edge_caddy.Prelude.Tests.{if◌then◌else◌, Bool-cases}
use Prim.Native.String.{String}
use mathlib.Core.Path.{◌≡◌, refl, ap, sym, ◌∙◌}
use mathlib.Core.Bool.{Bool, true, false}
use mathlib.Core.Logic.{inl, inr}
use mathlib.Core.Option.{Option, none, some}
use mathlib.Core.List.{List, [], ◌∷◌}
use native.Mathlib.Omega.{arith}
use text.Mathlib.Text.{◌==◌}
use text.Mathlib.TextEquality.{eq_iff}

abbrev pub Assoc {ℓ} : Type ℓ → Type ℓ
Assoc V = List (String × V)

module _ {ℓ} {V : Type ℓ} where
  -- `v, ok := m[k]`
  unfoldable pub lookup : String → Assoc V → Option V
  lookup k [] = none
  lookup k ((j, v) ∷ m) = if j == k then some v else lookup k m

  -- `m[k] = v`
  unfoldable pub insert : String → V → Assoc V → Assoc V
  insert k v [] = (k, v) ∷ []
  insert k v ((j, w) ∷ m) = if j == k then (j, v) ∷ m else (j, w) ∷ insert k v m

  -- `delete(m, k)`
  unfoldable pub delete : String → Assoc V → Assoc V
  delete k [] = []
  delete k ((j, w) ∷ m) = let rest = delete k m in if j == k then rest else (j, w) ∷ rest

  pub lookup-insert :
      (written asked : String) (new : V) (entries : Assoc V)
      → lookup asked (insert written new entries)
        ≡ (if written == asked then some new else lookup asked entries)
  unfolding lookup insert
  lookup-insert written asked new [] = refl
  lookup-insert written asked new ((key, old) ∷ entries) = ground (
    lookup-insert written asked new entries,
    eq_iff key written,
    eq_iff key asked,
    eq_iff written asked,
    arith,
  )

  pub lookup-delete :
      (k j : String) (m : Assoc V) → lookup j (delete k m) ≡ (if k == j then none else lookup j m)
  unfolding lookup delete
  lookup-delete k j [] = ground arith
  lookup-delete k j ((i, w) ∷ m) =
      ground (arith, eq_iff k j, eq_iff i k, eq_iff i j, lookup-delete k j m)

pub lookup_same {ℓ} :
    {V : Type ℓ} (j k : String) (m : Assoc V) → (j == k) ≡ true → lookup j m ≡ lookup k m
lookup_same j k m e = ap (λ i. lookup i m) ((eq_iff j k).0 e)

module _ {ℓ} {V : Type ℓ} where
  -- A Go map holds a key once.
  abbrev pub Distinct : Assoc V → Type ℓ
  Distinct [] = Unit
  Distinct ((k, v) ∷ m) = (lookup k m ≡ none) × Distinct m

  pub insert-Distinct : (k : String) (v : V) (m : Assoc V) → Distinct m → Distinct (insert k v m)
  unfolding insert
  insert-Distinct k v [] d = (unfold lookup in refl, tt)
  insert-Distinct k v ((j, w) ∷ m) d = elim (Bool-cases (j == k)) [
    | inl same ↦ rw same d
    | inr other ↦
        rw other
          (rw (lookup-insert k j v m) (rw (flip_test j k other) d.0), insert-Distinct k v m d.1)
  ]
    where
      flip_test : (a b : String) → (a == b) ≡ false → (b == a) ≡ false
      flip_test a b h = ground (arith, eq_iff a b, eq_iff b a)

module _ {ℓ} {V : Type ℓ} (p : String → V → Bool) where
  -- A loop that deletes the entries that fail the test.
  unfoldable pub keep_only : Assoc V → Assoc V
  keep_only [] = []
  keep_only ((k, v) ∷ m) = let rest = keep_only m in if p k v then (k, v) ∷ rest else rest

  abbrev pub if_kept : String → Option V → Option V
  if_kept k none = none
  if_kept k (some v) = if p k v then some v else none

  pub lookup-keep_only :
      (k : String) (m : Assoc V) → Distinct m → lookup k (keep_only m) ≡ if_kept k (lookup k m)
  unfolding keep_only lookup
  lookup-keep_only k [] d = refl
  lookup-keep_only k ((j, v) ∷ m) d = by_tests (p j v) (j == k) refl refl (lookup-keep_only k m d.1)
    where
      here : (b : Bool) → (j == k) ≡ true → p j v ≡ b → p k v ≡ b
      here b f e = ap (λ i. p i v) (sym ((eq_iff j k).0 f)) ∙ e

      by_tests :
          (kept same : Bool)
          → p j v ≡ kept
          → (j == k) ≡ same
          → lookup k (keep_only m) ≡ if_kept k (lookup k m)
          → lookup k (if kept then (j, v) ∷ keep_only m else keep_only m)
            ≡ if_kept k (if same then some v else lookup k m)
      by_tests true true e f rest = rw (f, here true f e) refl
      by_tests true false e f rest = rw f rest
      by_tests false true e f rest =
          rest ∙ ap (if_kept k) (sym (lookup_same j k m f) ∙ d.0) ∙ rw (here false f e) refl
      by_tests false false e f rest = rest

  pub keep_only-Distinct : (m : Assoc V) → Distinct m → Distinct (keep_only m)
  unfolding keep_only
  keep_only-Distinct [] d = tt
  keep_only-Distinct ((k, v) ∷ m) d = elim (Bool-cases (p k v)) [
    | inl kept ↦ rw kept (lookup-keep_only k m d.1 ∙ ap (if_kept k) d.0, keep_only-Distinct m d.1)
    | inr dropped ↦ rw dropped (keep_only-Distinct m d.1)
  ]
