-- ===== src/Ready/Uris.antt =====
-- `raw_uri_to_bronze_uri` of services/workers/excel_bronze_writer/writer.py and of
-- services/workers/salesforce_bronze_writer/writer.py.
pub mod Places
use Prim.Native.String
use Prim.Native.String.{◌++◌}
use fintech_data_platform.Prelude.{
  String, ◌≡◌, Option, none, some, [], ◌∷◌, ◌==◌, Bool, true, false, if◌then◌else◌,
}
use fintech_data_platform.Prelude.Text.{concat}
use fintech_data_platform.Library.{Library}
use fintech_data_platform.Lake.{split_s3_uri}
use fintech_data_platform.Exec.{ErrorKind, Result, err, failure, ok, ◌>>>◌}

-- What stands behind `prefix`, where the text starts with it.
unfoldable pub strip_prefix : String → String → Option String
strip_prefix String.[] s = some s
strip_prefix (String.◌∷◌ p ps) String.[] = none
strip_prefix (String.◌∷◌ p ps) (String.◌∷◌ c s) =
    let rest = strip_prefix ps s in
    if String.◌∷◌ p String.[] == String.◌∷◌ c String.[] then rest else none

-- What stands before `suffix`, where the text ends with it.
unfoldable pub strip_suffix : String → String → Option String
strip_suffix suffix String.[] = if suffix == "" then some "" else none
strip_suffix suffix (String.◌∷◌ c s) =
    let rest = strip_suffix suffix s in
    if suffix == String.◌∷◌ c s
    then some ""
    else elim rest [ none ↦ none | some before ↦ some (String.◌∷◌ c before) ]

-- The parent of `rpartition("/")`: what stands before the last slash, where there is one.
unfoldable pub parent_of : String → Option String
parent_of String.[] = none
parent_of (String.◌∷◌ c s) =
    let rest = parent_of s in
    elim rest [
      | some parent ↦ some (String.◌∷◌ c parent)
      | none ↦ if String.◌∷◌ c String.[] == "/" then some "" else none
    ]

-- `.xlsx` or `.xlsm` becomes `.parquet`; another name has it put behind.
unfoldable pub parquet_name : String → String
unfolding strip_suffix
parquet_name key = elim (strip_suffix ".xlsx" key) [
  | some stem ↦ stem ++ ".parquet"
  | none ↦ elim (strip_suffix ".xlsm" key) [
    | some stem ↦ stem ++ ".parquet"
    | none ↦ key ++ ".parquet"
  ]
]

abbrev pub object_uri : String → String → String
object_uri bucket key = concat ("s3://" ∷ bucket ∷ "/" ∷ key ∷ [])

abbrev pub excel_place : String × String → Result String
excel_place (bucket, key) = elim (strip_prefix "raw/source=excel/" key) [
  | none ↦ err (failure ErrorKind.value_error "raw uri is not excel raw path")
  | some rest ↦ ok (object_uri bucket (parquet_name ("bronze/source=excel/" ++ rest)))
]

-- `raw_uri_to_bronze_uri` of the Excel writer
unfoldable pub excel_bronze_uri : Library → String → Result String
unfolding split_s3_uri strip_prefix parquet_name
excel_bronze_uri lib raw_uri = split_s3_uri lib raw_uri >>> excel_place

abbrev pub part_of : Option String → String
part_of none = "part-0.parquet"
part_of (some parent) = if parent == "" then "part-0.parquet" else parent ++ "/part-0.parquet"

abbrev pub salesforce_place : String × String → Result String
salesforce_place (bucket, key) = elim (strip_prefix "raw/source=salesforce/" key) [
  | none ↦ err (failure ErrorKind.value_error "raw uri is not salesforce raw path")
  | some rest ↦ ok (object_uri bucket (part_of (parent_of ("bronze/source=salesforce/" ++ rest))))
]

-- `raw_uri_to_bronze_uri` of the Salesforce writer
unfoldable pub salesforce_bronze_uri : Library → String → Result String
unfolding split_s3_uri strip_prefix parent_of
salesforce_bronze_uri lib raw_uri = split_s3_uri lib raw_uri >>> salesforce_place
