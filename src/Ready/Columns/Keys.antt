-- ===== src/Ready/Columns/Keys.antt =====
-- `records_to_parquet`: which columns the table has, and what stands in them.
use fintech_data_platform.Prelude.{
  String, ◌≡◌, refl, ap, ◌∙◌, ◌==◌, Bool, false, ◌||◌, List, [], ◌∷◌, ◌++◌, any, map, arith, eq_iff,
  if_elim,
}
use fintech_data_platform.Json.{Value, Fields, end, field, get}
use fintech_data_platform.Library.{Library}
use fintech_data_platform.Ready.Columns.{
  add_key, add_keys, cell, column, columns_of, has_key, keys_onto, record_columns,
}

-- No name occurs twice.
abbrev pub IsUnique : List String → Type 0
IsUnique [] = Unit
IsUnique (k ∷ ks) = (has_key k ks ≡ false) × IsUnique ks

abbrev pub has_field : String → Fields → Bool
has_field k end = false
has_field k (field j v fs) = (j == k) || has_field k fs

has_key-append :
    (j : String) (ks : List String) (k : String)
    → has_key j (ks ++ (k ∷ [])) ≡ (has_key j ks || (k == j))
has_key-append j [] k = ground arith
has_key-append j (i ∷ ks) k = ground (arith, has_key-append j ks k)

append-IsUnique :
    (ks : List String) (k : String) → IsUnique ks → has_key k ks ≡ false → IsUnique (ks ++ (k ∷ []))
append-IsUnique [] k u new = (refl, tt)
append-IsUnique (j ∷ ks) k (first, u) new = (
  ground (arith, has_key-append j ks k, eq_iff k j, eq_iff j k, first),
  append-IsUnique ks k u (ground arith),
)

add_key-IsUnique : (ks : List String) (k : String) → IsUnique ks → IsUnique (add_key ks k)
add_key-IsUnique ks k u = if_elim IsUnique (has_key k ks) _ _ (λ _. u) (append-IsUnique ks k u)

add_keys-IsUnique : (ks : List String) (fs : Fields) → IsUnique ks → IsUnique (add_keys ks fs)
add_keys-IsUnique ks end u = u
add_keys-IsUnique ks (field k v fs) u =
    add_keys-IsUnique (add_key ks k) fs (add_key-IsUnique ks k u)

keys_onto-IsUnique :
    (ks : List String) (rs : List Fields) → IsUnique ks → IsUnique (keys_onto ks rs)
unfolding keys_onto
keys_onto-IsUnique ks [] u = u
keys_onto-IsUnique ks (r ∷ rs) u = keys_onto-IsUnique (add_keys ks r) rs (add_keys-IsUnique ks r u)

has_key-add_key :
    (j : String) (ks : List String) (k : String)
    → has_key j (add_key ks k) ≡ (has_key j ks || (k == j))
has_key-add_key j ks k = ground (arith, has_key-append j ks k, eq_iff k j)

has_key-add_keys :
    (j : String) (ks : List String) (fs : Fields)
    → has_key j (add_keys ks fs) ≡ (has_key j ks || has_field j fs)
has_key-add_keys j ks end = ground arith
has_key-add_keys j ks (field k v fs) =
    ground (arith, has_key-add_keys j (add_key ks k) fs, has_key-add_key j ks k)

has_key-keys_onto :
    (j : String) (ks : List String) (rs : List Fields)
    → has_key j (keys_onto ks rs) ≡ (has_key j ks || any (has_field j) rs)
unfolding keys_onto
has_key-keys_onto j ks [] = ground arith
has_key-keys_onto j ks (r ∷ rs) =
    ground (arith, has_key-keys_onto j (add_keys ks r) rs, has_key-add_keys j ks r)

module _ (lib : Library) where
  column_lem : (rs : List Fields) (k : String) → column lib rs k ≡ map (λ r. cell lib (get k r)) rs
  column_lem [] k = refl
  column_lem (r ∷ rs) k = ap (◌∷◌ (cell lib (get k r))) (column_lem rs k)

  columns_of_lem :
      (rs : List Fields) (ks : List String)
      → columns_of lib rs ks ≡ map (λ k. (k, map (λ r. cell lib (get k r)) rs)) ks
  columns_of_lem rs [] = refl
  columns_of_lem rs (k ∷ ks) =
      ap (λ c. (k, c) ∷ columns_of lib rs ks) (column_lem rs k)
      ∙ ap (◌∷◌ (k, map (λ r. cell lib (get k r)) rs)) (columns_of_lem rs ks)

  -- The columns of a table of records: their names, which are the keys that occur in some record,
  -- none of them twice, and their cells, one of every record, in the order of the records.
  pub record IsTable (rs : List Fields) (columns : List (String × List Value)) : Type 0 where
    pub names : List String
    pub unique : IsUnique names
    pub occurring : (k : String) → has_key k names ≡ any (has_field k) rs
    pub cells : columns ≡ map (λ k. (k, map (λ r. cell lib (get k r)) rs)) names

  -- The names of the columns are exactly the keys that occur in some record, none of them twice,
  -- and each column has the cell of every record, in the order of the records.
  pub record_columns_lem : (rs : List Fields) → IsTable rs (record_columns lib rs)
  unfolding record_columns
  record_columns_lem rs = record {
    names = keys_onto [] rs;
    unique = keys_onto-IsUnique [] rs tt;
    occurring = λ k. has_key-keys_onto k [] rs;
    cells = columns_of_lem rs (keys_onto [] rs);
  }
