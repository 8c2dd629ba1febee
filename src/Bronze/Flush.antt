-- ===== src/Bronze/Flush.antt =====
-- services/workers/cdc_bronze_writer/writer.py: `build_flush`, the grouping of the rows by table and
-- their order in a table. Python's `sort` is stable, so it gives what an insertion sort gives; it
-- raises for the rows whose keys cannot be compared, as an insertion sort does.
use fintech_data_platform.Prelude.{
  ℕ, Bool, true, false, not, ◌==◌, List, [], ◌∷◌, ◌++◌, ltb, if◌then◌else◌,
}
use fintech_data_platform.Prelude.Int.{eqb_ℤ, leb_ℤ}
use fintech_data_platform.Prelude.Text.{text_less}
use fintech_data_platform.Json.{Value, int, str, arr, obj, is_null, or_else}
use fintech_data_platform.Library.{Library}
use fintech_data_platform.Exec.{Result, ok, err, failure, ErrorKind, ◌>>>◌}
use fintech_data_platform.Bronze.Row.{AssessedRecord, BatchRow, rows_of}

pub record Table : Type 0 where
  pub source_table : Value
  pub rows : List BatchRow

pub record FlushResult : Type 0 where
  pub by_table : List Table
  pub records : List AssessedRecord

-- A key of a dict: a list and a dict have no hash.
abbrev pub hashable : Value → Result Value
hashable (arr vs) = err (failure ErrorKind.type_error "unhashable type: 'list'")
hashable (obj fs) = err (failure ErrorKind.type_error "unhashable type: 'dict'")
hashable v = ok v

-- `row.source_table or "unknown"`
abbrev pub table_key : BatchRow → Result Value
table_key row = hashable (or_else row.source_table (str "unknown"))

-- `row.source_lsn or ""`
abbrev pub lsn_text : Value → Value
lsn_text lsn = or_else lsn (str "")

module _ (lib : Library) where
  -- `v == w`
  abbrev pub same : Value → Value → Bool
  same (str s) (str t) = s == t
  same (int m) (int n) = eqb_ℤ m n
  same v w = lib.equal v w

  -- `v < w`
  abbrev pub less : Value → Value → Result Bool
  less (str s) (str t) = ok (text_less s t)
  less (int m) (int n) = ok (not (leb_ℤ n m))
  less v w = lib.less v w

  -- `by_table.setdefault(key, []).append(row)`
  abbrev pub add_row : Value → BatchRow → List Table → List Table
  add_row key row [] = record { source_table = key; rows = row ∷ [] } ∷ []
  add_row key row (t ∷ ts) =
      let rest = add_row key row ts in
      if same t.source_table key
      then record { source_table = t.source_table; rows = t.rows ++ (row ∷ []) } ∷ ts
      else t ∷ rest

  -- the loop over the rows
  unfoldable pub grouped : List BatchRow → List Table → Result (List Table)
  grouped [] tables = ok tables
  grouped (row ∷ rows) tables = table_key row >>> λ key. grouped rows (add_row key row tables)

  -- The order of two keys, by the LSNs and the offsets that they are made of: tuples compare at
  -- the first place where they differ.
  abbrev pub key_less : Value → ℕ → Value → ℕ → Result Bool
  key_less a m b n =
      if is_null a
      then (if is_null b then ok (ltb m n) else ok false)
      else if is_null b
      then ok true
      else if same (lsn_text a) (lsn_text b)
      then ok (ltb m n)
      else less (lsn_text a) (lsn_text b)

  -- `_sort_key(a) < _sort_key(b)`
  unfoldable pub sorts_before : BatchRow → BatchRow → Result Bool
  unfolding text_less
  sorts_before a b = key_less a.source_lsn a.kafka_offset b.source_lsn b.kafka_offset

  -- A row goes behind those of the same key that are there.
  abbrev pub insert_row : BatchRow → List BatchRow → Result (List BatchRow)
  insert_row row [] = ok (row ∷ [])
  insert_row row (r ∷ rs) =
      let rest = insert_row row rs in
      sorts_before row r >>> λ before.
      if before then ok (row ∷ r ∷ rs) else rest >>> λ rs'. ok (r ∷ rs')

  unfoldable pub sorted_onto : List BatchRow → List BatchRow → Result (List BatchRow)
  unfolding sorts_before
  sorted_onto [] done = ok done
  sorted_onto (row ∷ rows) done = insert_row row done >>> λ done'. sorted_onto rows done'

  -- `table_rows.sort(key=_sort_key)` of every table
  unfoldable pub sort_tables : List Table → Result (List Table)
  unfolding sorted_onto
  sort_tables [] = ok []
  sort_tables (t ∷ ts) = sorted_onto t.rows [] >>> λ rows.
      sort_tables ts >>> λ rest. ok (record { source_table = t.source_table; rows = rows } ∷ rest)

  -- `CdcBronzeWriter.build_flush`
  unfoldable pub build_flush : List AssessedRecord → Result FlushResult
  unfolding rows_of grouped sort_tables
  build_flush records = rows_of lib records >>> λ rows. grouped rows [] >>> λ tables.
      sort_tables tables >>> λ by_table. ok (record { by_table = by_table; records = records })
