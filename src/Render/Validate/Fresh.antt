-- ===== src/Render/Validate/Fresh.antt =====
-- Lists of names without a repetition, and lists of issues that are empty.
use edge_caddy.Prelude.{
  Bool, true, false, not, ◌&&◌, ◌||◌, String, str_eq, List, [], ◌∷◌, ◌++◌, ◌≡◌, refl, sym, has, All,
}
use edge_caddy.Render.Validate.{Field, require}

-- No two entries are the same.
abbrev pub IsUnique : List String → Type 0
IsUnique [] = Unit
IsUnique (x ∷ xs) = All (λ y. str_eq x y ≡ false) xs × IsUnique xs

-- Each entry is new to those before it, and to those seen at first.
abbrev pub Fresh : List String → List String → Type 0
Fresh seen [] = Unit
Fresh seen (x ∷ xs) = (has x seen ≡ false) × Fresh (x ∷ seen) xs

pub or_false : (a b : Bool) → (a || b) ≡ false → (a ≡ false) × (b ≡ false)
or_false true b h = cc
or_false false b h = (refl, h)

pub and_true : (a b : Bool) → (a && b) ≡ true → (a ≡ true) × (b ≡ true)
and_true true b h = (refl, h)
and_true false b h = cc

Fresh-apart :
    (x : String) (seen xs : List String)
    → ((z : String) → has z seen ≡ false → str_eq x z ≡ false)
    → Fresh seen xs
    → All (λ y. str_eq x y ≡ false) xs
Fresh-apart x seen [] apart fresh = tt
Fresh-apart x seen (y ∷ ys) apart fresh = (
  apart y fresh.0,
  Fresh-apart x (y ∷ seen) ys (λ z new. apart z (or_false (str_eq y z) (has z seen) new).1) fresh.1,
)

pub Fresh-IsUnique : (seen xs : List String) → Fresh seen xs → IsUnique xs
Fresh-IsUnique seen [] fresh = tt
Fresh-IsUnique seen (x ∷ xs) fresh = (
  Fresh-apart x (x ∷ seen) xs (λ z new. (or_false (str_eq x z) (has z seen) new).0) fresh.1,
  Fresh-IsUnique (x ∷ seen) xs fresh.1,
)

pub append-[] : {A : Type 0} (xs ys : List A) → (xs ++ ys) ≡ [] → (xs ≡ []) × (ys ≡ [])
append-[] [] ys h = (refl, h)
append-[] (x ∷ xs) ys h = cc

pub require-[] : (b : Bool) (key : String) (field : Field) → require b key field ≡ [] → b ≡ true
require-[] true key field h = refl
require-[] false key field h = cc

pub is_false : (b : Bool) → not b ≡ true → b ≡ false
is_false true h = sym h
is_false false h = refl
