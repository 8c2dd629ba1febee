-- ===== src/Curated/Literals.antt =====
-- services/pipeline/curated_sql_helpers.py, and `_build_values` of
-- silver_curated/tasks/merge_into_silver.py: values as SQL literals.
pub mod Reading
use Prim.Native.String
use Prim.Native.String.{◌++◌}
use fintech_data_platform.Prelude.{
  String, Bool, true, false, ◌||◌, ◌==◌, List, [], ◌∷◌, any, if◌then◌else◌,
}
use fintech_data_platform.Prelude.Text.{concat, lower, strip}
use fintech_data_platform.Json.{Value, null, bool, str, Fields, get}
use fintech_data_platform.Library.{Library, str_of}
use fintech_data_platform.Exec.{ErrorKind, Result, err, failure, ok, ◌>>>◌}

-- `text.replace("'", "''")`
unfoldable pub doubled : String → String
doubled String.[] = String.[]
doubled (String.◌∷◌ c s) =
    let rest = doubled s in
    if String.◌∷◌ c String.[] == "'"
    then String.◌∷◌ "'" (String.◌∷◌ "'" rest)
    else String.◌∷◌ c rest

abbrev pub quoted : String → String
quoted s = String.◌∷◌ "'" (doubled s ++ "'")

-- `sql_string_literal`
unfoldable pub sql_string_literal : Library → Value → String
unfolding doubled str_of
sql_string_literal lib null = "NULL"
sql_string_literal lib v = quoted (str_of lib v)

abbrev pub is_among : List String → String → Bool
is_among names s = any (λ n. n == s) names

abbrev bool_word : String → Result String
bool_word word =
    if is_among ("true" ∷ "t" ∷ "1" ∷ "yes" ∷ "y" ∷ []) word
    then ok "TRUE"
    else if is_among ("false" ∷ "f" ∷ "0" ∷ "no" ∷ "n" ∷ []) word
    then ok "FALSE"
    else err (failure ErrorKind.workflow_error "unsupported boolean value in masked row")

-- `sql_bool_literal`
unfoldable pub sql_bool_literal : Value → Result String
unfolding strip lower
sql_bool_literal null = ok "NULL"
sql_bool_literal (bool b) = ok (if b then "TRUE" else "FALSE")
sql_bool_literal (str s) = bool_word (lower (strip s))
sql_bool_literal v =
    err (failure ErrorKind.workflow_error "unsupported boolean value in masked row")

-- a column with whether its kind is "bool"
abbrev cell_literal : Library → Bool → Value → Result String
cell_literal lib is_bool v = if is_bool then sql_bool_literal v else ok (sql_string_literal lib v)

abbrev row_literals : Library → List (String × Bool) → Fields → Result (List String)
row_literals lib [] row = ok []
row_literals lib ((key, is_bool) ∷ columns) row = cell_literal lib is_bool (get key row) >>> λ cell.
    row_literals lib columns row >>> λ rest. ok (cell ∷ rest)

-- `separator.join(texts)`
abbrev pub join : String → List String → String
join separator [] = ""
join separator (s ∷ []) = s
join separator (s ∷ t ∷ ss) = concat (s ∷ separator ∷ join separator (t ∷ ss) ∷ [])

abbrev rows_literals : Library → List (String × Bool) → List Fields → Result (List String)
rows_literals lib columns [] = ok []
rows_literals lib columns (row ∷ rows) = row_literals lib columns row >>> λ cells.
    rows_literals lib columns rows >>> λ rest. ok (concat ("(" ∷ join ", " cells ∷ ")" ∷ []) ∷ rest)

-- `_build_values`
unfoldable pub build_values : Library → List Fields → List (String × Bool) → Result String
unfolding sql_string_literal sql_bool_literal
build_values lib rows columns =
    rows_literals lib columns rows >>> λ texts. ok (join ",\n        " texts)
