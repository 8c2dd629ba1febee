-- ===== src/EventStore/Checkpoints.antt =====
-- The checkpoint operations of event_store.py, with the checks of migrations 03 to 05.
use fintech_data_platform.Prelude.{
  ℕ, String, Bool, not, ◌&&◌, ◌==◌, Option, none, some, List, [], ◌∷◌, ltb, if◌then◌else◌,
}
use fintech_data_platform.Prelude.Int.{leb_ℤ}
use fintech_data_platform.Prelude.Text.{is_trimmed_empty}
use fintech_data_platform.Exec.{Exec, ok, err}
use fintech_data_platform.EventStore.Tables.{
  Db, CdcCheckpoint, SfCursor, CuratedCheckpoint, has_run, violation,
}

-- `PgEventStore.append_cdc_checkpoint`; `recorded_at` is the column's default.
unfoldable pub append_cdc_checkpoint : CdcCheckpoint → Exec Db Unit
append_cdc_checkpoint c db =
    if has_run c.run_id db.runs && leb_ℤ c.offset_start c.offset_end
    then (
      ok tt,
      record db { cdc_checkpoints = record c { recorded_at = db.now } ∷ db.cdc_checkpoints },
    )
    else (err (violation "cdc_checkpoint"), db)

-- `PgEventStore.append_sf_cursor_checkpoint`
unfoldable pub append_sf_cursor_checkpoint : SfCursor → Exec Db Unit
unfolding is_trimmed_empty
append_sf_cursor_checkpoint c db =
    if has_run c.run_id db.runs
      && leb_ℤ c.offset_start c.offset_end
      && not (is_trimmed_empty c.sobject)
    then (ok tt, record db { sf_cursors = record c { recorded_at = db.now } ∷ db.sf_cursors })
    else (err (violation "sf_cursor_checkpoint"), db)

-- the later of a row and the best of the older rows; of rows recorded at one time, the newest
abbrev pub later : SfCursor → Option SfCursor → Option SfCursor
later c none = some c
later c (some d) = if ltb c.recorded_at d.recorded_at then some d else some c

unfoldable pub latest_of : String → List SfCursor → Option SfCursor
latest_of sobject [] = none
latest_of sobject (c ∷ cs) =
    let rest = latest_of sobject cs in if c.sobject == sobject then later c rest else rest

-- `PgEventStore.latest_sf_cursor`
unfoldable pub latest_sf_cursor : String → Exec Db (Option (ℕ × String))
unfolding latest_of
latest_sf_cursor sobject db = (ok (cursor (latest_of sobject db.sf_cursors)), db)
  where
    cursor : Option SfCursor → Option (ℕ × String)
    cursor none = none
    cursor (some c) = some (c.cursor_ts, c.cursor_id)

-- the checks that the two curated tables share
abbrev check_curated : CuratedCheckpoint → Db → Bool
check_curated c db =
    has_run c.run_id db.runs
    && has_run c.parent_run_id db.runs
    && not (c.parent_run_id == c.run_id)
    && not (is_trimmed_empty c.subject)
    && not (is_trimmed_empty c.output_table)

-- `PgEventStore.append_silver_checkpoint`
unfoldable pub append_silver_checkpoint : CuratedCheckpoint → Exec Db Unit
unfolding is_trimmed_empty
append_silver_checkpoint c db =
    if check_curated c db
    then (
      ok tt,
      record db { silver_checkpoints = record c { recorded_at = db.now } ∷ db.silver_checkpoints },
    )
    else (err (violation "silver_checkpoint"), db)

-- `PgEventStore.append_gold_checkpoint`
unfoldable pub append_gold_checkpoint : CuratedCheckpoint → Exec Db Unit
unfolding is_trimmed_empty
append_gold_checkpoint c db =
    if check_curated c db
    then (
      ok tt,
      record db { gold_checkpoints = record c { recorded_at = db.now } ∷ db.gold_checkpoints },
    )
    else (err (violation "gold_checkpoint"), db)
