-- ===== src/Ready/Columns.antt =====
-- `records_to_parquet` of services/workers/salesforce_bronze_writer/writer.py: the columns of a list
-- of records. The table and its bytes are pyarrow's.
pub mod Keys
use fintech_data_platform.Prelude.{
  ℕ, String, ◌≡◌, refl, Bool, true, false, not, ◌||◌, ◌==◌, List, [], ◌∷◌, ◌++◌, any, if◌then◌else◌,
}
use fintech_data_platform.Json.{Value, str, arr, obj, Fields, end, field, get}
use fintech_data_platform.Library.{Library}

abbrev pub has_key : String → List String → Bool
has_key k = any (λ j. j == k)

-- `keys.append(k)` of what has not been seen
abbrev pub add_key : List String → String → List String
add_key keys k = if has_key k keys then keys else keys ++ (k ∷ [])

abbrev pub add_keys : List String → Fields → List String
add_keys keys end = keys
add_keys keys (field k v fs) = add_keys (add_key keys k) fs

-- the keys of the records, each at the place where it is first seen
unfoldable pub keys_onto : List String → List Fields → List String
keys_onto keys [] = keys
keys_onto keys (r ∷ rs) = keys_onto (add_keys keys r) rs

module _ (lib : Library) where
  -- A dict or a list is kept as JSON text.
  abbrev pub cell : Value → Value
  cell (obj fs) = str (lib.dumps (obj fs))
  cell (arr vs) = str (lib.dumps (arr vs))
  cell v = v

  abbrev pub column : List Fields → String → List Value
  column [] k = []
  column (r ∷ rs) k = cell (get k r) ∷ column rs k

  abbrev pub columns_of : List Fields → List String → List (String × List Value)
  columns_of rs [] = []
  columns_of rs (k ∷ ks) = (k, column rs k) ∷ columns_of rs ks

  -- the columns that the table is made of
  unfoldable pub record_columns : List Fields → List (String × List Value)
  unfolding keys_onto
  record_columns rs = columns_of rs (keys_onto [] rs)
