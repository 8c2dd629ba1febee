-- ===== src/Excel/Contract.antt =====
-- services/libs/excel_validation/validator.py: the rules of a schema contract for a table that
-- pandas has read. Of the table the rules see the names of the columns, their dtypes, their numbers
-- of nulls and the number of rows.
use text.Mathlib.Text.{starts_with}
use fintech_data_platform.Prelude.{
  ℕ, String, Bool, true, false, ◌||◌, ◌==◌, Option, none, some, List, [], ◌∷◌, ◌++◌, any, find, eqb,
  if◌then◌else◌,
}
use fintech_data_platform.Prelude.Text.{concat, show}
use fintech_data_platform.Json.{str, obj, opt_str, Items, nil, cons, dict}

-- A contract with its lists of texts, as its file has them.
pub record SchemaContract : Type 0 where
  pub contract_id : String
  pub sheet_name : Option String
  pub required_columns : List String
  -- the names with the expected dtypes
  pub column_types : List (String × String)
  pub disallow_null_columns : List String

pub record ValidationError : Type 0 where
  pub kind : String
  pub column : Option String
  pub detail : String

pub record ValidationResult : Type 0 where
  pub passed : Bool
  pub row_count : ℕ
  pub errors : List ValidationError

pub record Column : Type 0 where
  pub name : String
  -- `str(df[col].dtype)`
  pub dtype : String
  -- `int(df[col].isna().sum())`
  pub null_count : ℕ

pub record DataFrame : Type 0 where
  pub columns : List Column
  -- `len(df)`
  pub rows : ℕ

-- `df[col]`, where the table has the column
abbrev pub column_of : DataFrame → String → Option Column
column_of df col = find (λ (c : Column). c.name == col) df.columns

abbrev pub is_one_of : List String → String → Bool
is_one_of names s = any (λ n. n == s) names

abbrev pub string_dtypes : List String
string_dtypes = "object" ∷ "str" ∷ "string" ∷ "string[python]" ∷ "string[pyarrow]" ∷ []

abbrev pub int_dtypes : List String
int_dtypes = "int8" ∷ "int16" ∷ "int32" ∷ "int64" ∷ "Int8" ∷ "Int16" ∷ "Int32" ∷ "Int64" ∷ []

abbrev pub float_dtypes : List String
float_dtypes = "float16" ∷ "float32" ∷ "float64" ∷ []

-- `_dtype_matches`
unfoldable pub dtype_matches : String → String → Bool
dtype_matches actual expected =
    if expected == "string"
    then is_one_of string_dtypes actual
    else if expected == "float64"
    then is_one_of float_dtypes actual || is_one_of int_dtypes actual
    else if starts_with expected "datetime64"
    then starts_with actual "datetime64"
    else actual == expected

abbrev error_at : String → String → List String → ValidationError
error_at kind col parts = record { kind = kind; column = some col; detail = concat parts }

-- what one column adds to the list of errors
abbrev pub missing_error : DataFrame → String → List ValidationError
missing_error df col = elim (column_of df col) [
  | none ↦ error_at "missing_column" col ("column absent" ∷ []) ∷ []
  | some c ↦ []
]

abbrev pub type_error : DataFrame → String × String → List ValidationError
type_error df (col, expected) = elim (column_of df col) [
  | none ↦ []
  | some c ↦
      if dtype_matches c.dtype expected
      then []
      else error_at "type_mismatch" col ("expected=" ∷ expected ∷ " actual=" ∷ c.dtype ∷ []) ∷ []
]

abbrev pub null_error : DataFrame → String → List ValidationError
null_error df col = elim (column_of df col) [
  | none ↦ []
  | some c ↦
      if eqb c.null_count 0
      then []
      else error_at "null_values" col
          (show c.null_count ∷ " rows with null in required column" ∷ [])
        ∷ []
]

-- a loop over columns that appends to `errors`
abbrev pub errors_of {ℓ} : {A : Type ℓ} → (A → List ValidationError) → List A → List ValidationError
errors_of f [] = []
errors_of f (x ∷ xs) = f x ++ errors_of f xs

abbrev pub is_nil : List ValidationError → Bool
is_nil [] = true
is_nil (e ∷ es) = false

-- `validate_dataframe`
unfoldable pub validate_dataframe : DataFrame → SchemaContract → ValidationResult
unfolding dtype_matches show
validate_dataframe df contract =
    let errors =
      errors_of (missing_error df) contract.required_columns
      ++ (errors_of (type_error df) contract.column_types
          ++ errors_of (null_error df) contract.disallow_null_columns) in
    record { passed = is_nil errors; row_count = df.rows; errors = errors }

-- `ValidationResult.errors_as_list`
abbrev pub errors_as_list : List ValidationError → Items
errors_as_list [] = nil
errors_as_list (e ∷ es) =
    cons
      (obj (
        dict (("kind", str e.kind) ∷ ("column", opt_str e.column) ∷ ("detail", str e.detail) ∷ [])))
      (errors_as_list es)
