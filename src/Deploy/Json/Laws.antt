-- ===== src/Deploy/Json/Laws.antt =====
-- The laws of the maps of Json.antt.
use edge_caddy.Prelude.{
  String, some, ◌≡◌, refl, str_eq, eq_iff, arith, if◌then◌else◌, Bool-cases, inl, inr, false, true,
  ap,
}
use edge_caddy.Deploy.Json.{Json, Fields, end, field, get, put, Distinct}

pub get-put :
    (k j : String) (v : Json) (m : Fields)
    → get j (put k v m) ≡ (if str_eq k j then some v else get j m)
unfolding get put
get-put k j v end = refl
get-put k j v (field i w m) = ground (arith, eq_iff k j, eq_iff i k, eq_iff i j, get-put k j v m)

flip_test : (a b : String) → str_eq a b ≡ false → str_eq b a ≡ false
flip_test a b h = ground (arith, eq_iff a b, eq_iff b a)

pub put-Distinct : (k : String) (v : Json) (m : Fields) → Distinct m → Distinct (put k v m)
unfolding put
put-Distinct k v end d = (unfold get in refl, tt)
put-Distinct k v (field j w m) d = elim (Bool-cases (str_eq j k)) [
  | inl same ↦ rw same d
  | inr other ↦
      rw other (rw (get-put k j v m) (rw (flip_test j k other) d.0), put-Distinct k v m d.1)
]

-- The same key has the same value.
pub get_same : (j k : String) (m : Fields) → str_eq j k ≡ true → get j m ≡ get k m
get_same j k m e = ap (λ i. get i m) ((eq_iff j k).0 e)
