-- ===== src/EventStore/Runs.antt =====
-- `open_run` and `close_run` (event_store.py, open_run_insert.sql, open_run_select_existing.sql,
-- close_run.sql, and the constraints of `pipeline_run`).
use fintech_data_platform.Prelude.{
  ℕ, String, Bool, true, false, not, ◌&&◌, ◌||◌, ◌==◌, Option, none, some, List, ◌∷◌, any, find,
  map, if◌then◌else◌,
}
use fintech_data_platform.Prelude.Text.{is_trimmed_empty}
use fintech_data_platform.Exec.{Exec, ok, err, failure, ErrorKind, pure, raise, modify, ◌>>=◌}
use fintech_data_platform.Envelope.{PipelineClass, PipelineName, class_value, name_value}
use fintech_data_platform.EventStore.Tables.{Db, Run, is_run, is_triggered_by, has_run, violation}

-- The arguments of `open_run`; `status` has the default "running".
pub record NewRun : Type 0 where
  pub run_id : String
  pub pipeline_class : PipelineClass
  pub pipeline_name : PipelineName
  pub source_system : String
  pub trigger_type : String
  pub trigger_event_ref : String
  pub initiator : String
  pub status : String
  pub parent_run_id : Option String

abbrev is_none : Option String → Bool
is_none none = true
is_none (some _) = false

abbrev triple_is : Run → String → String → String → Bool
triple_is r class name system =
    r.pipeline_class == class && r.pipeline_name == name && r.source_system == system

-- `pipeline_run_domain_ck`; the checks on the single columns follow from it.
unfoldable pub domain_check : Run → Bool
domain_check r =
    (is_none r.parent_run_id
      && (triple_is r "ingestion" "excel_ingestion" "excel"
          || triple_is r "ingestion" "cdc_ingestion" "cdc"
          || triple_is r "ingestion" "cdc_bronze_write" "cdc"
          || triple_is r "ingestion" "salesforce_ingestion" "salesforce"))
    || (triple_is r "curated" "curated_promotion" "curated" && not (is_none r.parent_run_id))

-- `pipeline_run_parent_not_self_ck`, and the reference to the parent row
unfoldable pub not_own_parent : Run → Bool
not_own_parent r = elim r.parent_run_id [ none ↦ true | some p ↦ not (p == r.run_id) ]

unfoldable pub parent_exists : Run → List Run → Bool
parent_exists r runs = elim r.parent_run_id [ none ↦ true | some p ↦ has_run p runs ]

unfoldable pub check_run : Run → Bool
unfolding domain_check not_own_parent is_trimmed_empty
check_run r = domain_check r && not_own_parent r && not (is_trimmed_empty r.trigger_event_ref)

abbrev pub row_of : NewRun → Run
row_of n = record {
  run_id = n.run_id;
  pipeline_class = class_value n.pipeline_class;
  pipeline_name = name_value n.pipeline_name;
  source_system = n.source_system;
  trigger_type = n.trigger_type;
  trigger_event_ref = n.trigger_event_ref;
  status = n.status;
  initiator = n.initiator;
  parent_run_id = n.parent_run_id;
  completed_at = none;
}

pub insert_run : Run → Db → Db
insert_run r db = record db { runs = r ∷ db.runs; inserted = r.run_id ∷ db.inserted }

-- open_run_insert.sql: `none` is the statement that returns no row.
unfoldable pub open_run_insert : Run → Exec Db (Option String)
unfolding insert_run
open_run_insert r db =
    if not (check_run r)
    then (err (violation "pipeline_run check"), db)
    else if any (is_triggered_by r.pipeline_name r.trigger_event_ref) db.runs
    then (ok none, db)
    else if has_run r.run_id db.runs || not (parent_exists r (r ∷ db.runs))
    then (err (violation "pipeline_run key"), db)
    else (ok (some r.run_id), insert_run r db)

-- open_run_select_existing.sql
unfoldable pub open_run_select_existing : String → String → Exec Db (Option String)
open_run_select_existing name ref db = (ok (found (find (is_triggered_by name ref) db.runs)), db)
  where
    found : Option Run → Option String
    found none = none
    found (some r) = some r.run_id

abbrev pub missing_run : Option String → Exec Db String
missing_run (some id) = pure id
missing_run none =
    raise (failure ErrorKind.runtime_error "open_run conflict but existing row not found")

abbrev pub or_existing : String → String → Option String → Exec Db String
or_existing name ref (some id) = pure id
or_existing name ref none = do existing ← open_run_select_existing name ref; missing_run existing

-- `PgEventStore.open_run`
unfoldable pub open_run : NewRun → Exec Db String
unfolding open_run_insert open_run_select_existing
open_run n = do
  row ← open_run_insert (row_of n)
  or_existing (name_value n.pipeline_name) n.trigger_event_ref row

abbrev pub closed : String → String → ℕ → Run → Run
closed id status completed_at r =
    if is_run id r then record r { status = status; completed_at = some completed_at } else r

-- `PgEventStore.close_run` (close_run.sql): an unknown run updates no row.
unfoldable pub close_run : String → String → ℕ → Exec Db Unit
close_run id status completed_at =
    modify (λ db. record db { runs = map (closed id status completed_at) db.runs })
