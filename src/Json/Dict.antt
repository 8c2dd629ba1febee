-- ===== src/Json/Dict.antt =====
-- Dicts under assignment to a key.
use fintech_data_platform.Prelude.{
  String, ◌≡◌, refl, ◌==◌, some, if◌then◌else◌, arith, eq_iff, eq_refl,
}
use fintech_data_platform.Json.{Value, Fields, end, field, lookup, put}

pub lookup-put :
    (k : String) (v : Value) (fs : Fields) (j : String)
    → lookup j (put k v fs) ≡ (if k == j then some v else lookup j fs)
lookup-put k v end j = refl
lookup-put k v (field i w fs) j =
    ground (arith, lookup-put k v fs j, eq_iff i k, eq_iff i j, eq_iff k j)

pub lookup-put_self : (k : String) (v : Value) (fs : Fields) → lookup k (put k v fs) ≡ some v
lookup-put_self k v fs = ground (arith, lookup-put k v fs k, eq_refl k)
