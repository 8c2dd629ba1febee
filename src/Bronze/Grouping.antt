-- ===== src/Bronze/Grouping.antt =====
-- What `build_flush` makes of records whose LSNs and table names are texts or missing.
use fintech_data_platform.Prelude.{
  ◌+◌, String, ◌≡◌, refl, Bool, true, false, ◌==◌, List, [], ◌∷◌, ◌++◌, count, count-append, All,
  arith, if◌then◌else◌, if_elim,
}
use fintech_data_platform.Json.{Value, null, str, or_else}
use fintech_data_platform.Library.{Library}
use fintech_data_platform.Exec.{ok}
use fintech_data_platform.Bronze.Row.{AssessedRecord, BatchRow, rows_of}
use fintech_data_platform.Bronze.Flush.{
  Table, FlushResult, hashable, same, add_row, grouped, sort_tables, build_flush,
}
use fintech_data_platform.Bronze.Sorting.{is_text, HasTextLsn, IsSorted, sorted_onto_lem}

abbrev pub all_rows : List Table → List BatchRow
all_rows [] = []
all_rows (t ∷ ts) = t.rows ++ all_rows ts

abbrev pub IsReadable : BatchRow → Type 0
IsReadable r = HasTextLsn r × (is_text r.source_table ≡ true)

abbrev HasTextRows : Table → Type 0
HasTextRows t = All HasTextLsn t.rows

hashable_either :
    (b : Bool) (s t : String) → (k : Value) × (hashable (if b then str s else str t) ≡ ok k)
hashable_either true s t = (_, refl)
hashable_either false s t = (_, refl)

hashable_text :
    (v : Value) → is_text v ≡ true → (k : Value) × (hashable (or_else v (str "unknown")) ≡ ok k)
hashable_text null h = (_, refl)
hashable_text (str s) h = hashable_either (if s == "" then false else true) s "unknown"
hashable_text _ h = cc

All-snoc :
    (rs : List BatchRow) (r : BatchRow)
    → All HasTextLsn rs
    → HasTextLsn r
    → All HasTextLsn (rs ++ (r ∷ []))
All-snoc [] r hs h = (h, tt)
All-snoc (x ∷ xs) r hs h = (hs.0, All-snoc xs r hs.1 h)

module _ (lib : Library) where
  count-add :
      (p : BatchRow → Bool) (key : Value) (row : BatchRow) (ts : List Table)
      → count p (all_rows (add_row lib key row ts)) ≡ count p (row ∷ []) + count p (all_rows ts)
  count-add p key row [] = omega arith
  count-add p key row (t ∷ ts) =
      if_elim (λ z. count p (all_rows z) ≡ count p (row ∷ []) + count p (t.rows ++ all_rows ts))
        (same lib t.source_table key) _ _
        (λ _. omega (
          arith,
          count-append p (t.rows ++ (row ∷ [])) (all_rows ts),
          count-append p t.rows (row ∷ []),
          count-append p t.rows (all_rows ts),
        ))
        (λ _. omega (
          arith,
          count-add p key row ts,
          count-append p t.rows (all_rows (add_row lib key row ts)),
          count-append p t.rows (all_rows ts),
        ))

  add-texts :
      (key : Value) (row : BatchRow) (ts : List Table)
      → HasTextLsn row
      → All HasTextRows ts
      → All HasTextRows (add_row lib key row ts)
  add-texts key row [] h hs = ((h, tt), tt)
  add-texts key row (t ∷ ts) h hs =
      if_elim (All HasTextRows) (same lib t.source_table key) _ _
        (λ _. (All-snoc t.rows row hs.0 h, hs.1)) (λ _. (hs.0, add-texts key row ts h hs.1))

  grouped_lem :
      (rows : List BatchRow) (ts : List Table)
      → All IsReadable rows
      → All HasTextRows ts
      → (out : List Table) × ((grouped lib rows ts ≡ ok out)
          × (All HasTextRows out
              × ((p : BatchRow → Bool)
                  → count p (all_rows out) ≡ count p rows + count p (all_rows ts))))
  unfolding grouped
  grouped_lem [] ts h hs = (ts, (refl, (hs, λ p. omega arith)))
  grouped_lem (row ∷ rows) ts h hs =
      let (key, ek) = hashable_text row.source_table h.0.1 in
      let (out, (e, (texts, c))) =
        grouped_lem rows (add_row lib key row ts) h.1 (add-texts key row ts h.0.0 hs) in
      (out, (rw (ek, e), (texts, λ p. ground (arith, c p, count-add p key row ts))))

  sort_tables_lem :
      (ts : List Table)
      → All HasTextRows ts
      → (out : List Table) × ((sort_tables lib ts ≡ ok out)
          × (All (λ (t : Table). IsSorted lib t.rows) out
              × ((p : BatchRow → Bool) → count p (all_rows out) ≡ count p (all_rows ts))))
  unfolding sort_tables
  sort_tables_lem [] h = ([], (refl, (tt, λ p. refl)))
  sort_tables_lem (t ∷ ts) h =
      let (rows, (er, (sorted, cr))) = sorted_onto_lem lib t.rows [] h.0 tt tt in
      let (rest, (et, (all_sorted, ct))) = sort_tables_lem ts h.1 in
      (
        record { source_table = t.source_table; rows = rows } ∷ rest,
        (
          rw (er, et),
          (
            (sorted, all_sorted),
            λ p. omega (
              arith,
              cr p,
              ct p,
              count-append p rows (all_rows rest),
              count-append p t.rows (all_rows ts),
            ),
          ),
        ),
      )

  -- Records whose rows have texts, or nothing, for the LSN and the table name are flushed: every
  -- row stands in the tables as often as among the records, and in each table no row goes before
  -- the one in front of it.
  pub build_flush_lem :
      (records : List AssessedRecord) (rows : List BatchRow)
      → rows_of lib records ≡ ok rows
      → All IsReadable rows
      → (flush : FlushResult) × ((build_flush lib records ≡ ok flush)
          × (All (λ (t : Table). IsSorted lib t.rows) flush.by_table
              × ((p : BatchRow → Bool) → count p (all_rows flush.by_table) ≡ count p rows)))
  unfolding build_flush
  build_flush_lem records rows er h =
      let (tables, (eg, (texts, cg))) = grouped_lem rows [] h tt in
      let (sorted, (es, (all_sorted, cs))) = sort_tables_lem tables texts in
      (
        record { by_table = sorted; records = records },
        (rw (er, eg, es), (all_sorted, λ p. omega (arith, cg p, cs p))),
      )
