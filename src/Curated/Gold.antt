-- ===== src/Curated/Gold.antt =====
-- services/pipeline/gold_curated: `open_curated_run`, `record_checkpoint_and_emit_event` and the
-- failure callback of aggregation.py. What a task hands to the next stands as a record.
use fintech_data_platform.Prelude.{ℕ, String, not, Option, none, some, List, [], ◌∷◌, if◌then◌else◌}
use fintech_data_platform.Prelude.Int.{pos}
use fintech_data_platform.Prelude.Text.{concat, show}
use fintech_data_platform.Json.{
  Value, int, str, arr, obj, nil, cons, Fields, dict, get, or_else, strings, truthy,
}
use fintech_data_platform.Library.{a_text, dict_or_empty, str_of}
use fintech_data_platform.Envelope.{Envelope}
use fintech_data_platform.Exec.{
  ErrorKind, Exec, Result, err, failure, lift, ok, pure, ◌>>=◌, ◌>>◌, ◌>>>◌,
}
use fintech_data_platform.EventStore.{
  CuratedCheckpoint, append_event, append_gold_checkpoint, close_run,
}
use fintech_data_platform.World.{
  Env, World, build, draw_time, draw_uuid, on_store, produce, transact,
}
use fintech_data_platform.Curated.Specs.{GoldMetricSpec, resolve_gold_metric, text_or_empty}
use fintech_data_platform.Curated.Runs.{
  CuratedRun, curated_draft, emit_failure_of, open_run_and_append_started, or_new_uuid, uuid_value,
}
use fintech_data_platform.Curated.Silver.{is_empty_dict, require}

-- What `open_curated_run` and `run_aggregation_sql` hand on.
pub record GoldState : Type 0 where
  pub run : CuratedRun
  pub parent_run_id : String
  pub silver_domain : String
  pub silver_table : Value
  pub spec : GoldMetricSpec
  pub snapshot_date : String
  pub computed_at : String
  pub record_count : ℕ

abbrev pub required_metric : Option GoldMetricSpec → Result GoldMetricSpec
required_metric none =
    err (failure ErrorKind.workflow_error "no gold metric mapping for silver domain")
required_metric (some spec) = ok spec

module _ (env : Env) where
  abbrev pub gold_started : GoldMetricSpec → String → Value → Value → Fields
  gold_started spec domain parent table = dict (
      ("message", str "Gold curated aggregation started.")
      ∷ ("stage", str "gold")
      ∷ ("metric", str spec.metric)
      ∷ ("silver_domain", str domain)
      ∷ ("parent_run_id", parent)
      ∷ ("input_table", table)
      ∷ ("transform_id", str spec.transform_id)
      ∷ ("transform_version", str "v1")
      ∷ [])

  abbrev pub open_gold_run : Fields → Fields → String → GoldMetricSpec → Exec World GoldState
  open_gold_run conf payload domain spec = do
    trace_value ← or_new_uuid env (get "trace_id" conf)
    curated_id ← draw_uuid env
    trace_id ← lift (uuid_value env trace_value)
    parent ← lift (uuid_value env (get "run_id" conf))
    parent_text ← lift (a_text (get "run_id" conf))
    run ← pure (record {
      run_id = curated_id;
      parent_run_id = some parent;
      trace_id = trace_id;
      trigger_event_ref = concat ("gold_curated_aggregation__" ∷ parent_text ∷ []);
    })
    id ←
        open_run_and_append_started env run "pipeline.gold.started.v1"
          (gold_started spec domain (get "run_id" conf) (get "output_table" payload))
    pure (record {
      run = record run { run_id = id };
      parent_run_id = parent;
      silver_domain = domain;
      silver_table = get "output_table" payload;
      spec = spec;
      snapshot_date = "";
      computed_at = "";
      record_count = 0;
    })

  -- `open_curated_run`; the aggregation fills in the date, the time and the count.
  unfoldable pub open_curated_run : Fields → Exec World GoldState
  unfolding resolve_gold_metric str_of
  open_curated_run conf = do
    lift (require (not (is_empty_dict conf)) "triggered without a silver envelope in conf")
    lift (require (truthy (get "run_id" conf)) "silver envelope missing run_id")
    payload ← lift (dict_or_empty (get "payload" conf))
    domain ← pure (text_or_empty env.library (get "silver_domain" payload))
    spec ← lift (required_metric (resolve_gold_metric domain))
    open_gold_run conf payload domain spec

  abbrev gold_output : String → String → String
  gold_output bucket metric = concat ("s3://" ∷ bucket ∷ "/gold/metric=" ∷ metric ∷ "/" ∷ [])

  -- `[state["silver_table"]] if state.get("silver_table") else []`, for a column of texts
  abbrev input_tables : Value → Result (List String)
  input_tables v = if truthy v then (a_text v >>> λ s. ok (s ∷ [])) else ok []

  abbrev gold_completed : String → GoldState → Fields
  gold_completed bucket s = dict (
      (
        "message",
        str (
            concat
              ("Computed " ∷ s.spec.metric ∷ " KPI with " ∷ show s.record_count ∷ " rows." ∷ [])),
      )
      ∷ ("stage", str "gold")
      ∷ ("metric", str s.spec.metric)
      ∷ ("output_table", str s.spec.output_table)
      ∷ ("parent_run_id", str s.parent_run_id)
      ∷ ("record_count", int (pos s.record_count))
      ∷ ("snapshot_date", str s.snapshot_date)
      ∷ ("computed_at", str s.computed_at)
      ∷ ("silver_domain", str s.silver_domain)
      ∷ ("input_uris", arr (if truthy s.silver_table then cons s.silver_table nil else nil))
      ∷ ("output_uris", arr (strings (gold_output bucket s.spec.metric ∷ [])))
      ∷ ("transform_id", str s.spec.transform_id)
      ∷ ("transform_version", str "v1")
      ∷ [])

  abbrev gold_checkpoint : String → GoldState → List String → CuratedCheckpoint
  gold_checkpoint bucket s tables = record {
    run_id = s.run.run_id;
    parent_run_id = s.parent_run_id;
    subject = s.spec.metric;
    input_uris = tables;
    output_table = s.spec.output_table;
    output_uris = gold_output bucket s.spec.metric ∷ [];
    record_count = s.record_count;
    merge_inserted = 0;
    merge_updated = 0;
    merge_closed = 0;
    recorded_at = 0;
  }

  abbrev pub record_gold : String → GoldState → Envelope → ℕ × ℕ → Exec World Unit
  record_gold bucket s envelope (partition, offset) = do
    tables ← lift (input_tables s.silver_table)
    on_store (append_gold_checkpoint (gold_checkpoint bucket s tables))
    inserted ←
        on_store (append_event envelope "pipeline.gold.completed.v1" (pos partition) (pos offset))
    done ← draw_time env
    on_store (close_run s.run.run_id "completed" done)

  -- `record_checkpoint_and_emit_event`, with the bucket of the settings
  unfoldable pub record_gold_and_emit : String → GoldState → Exec World Unit
  unfolding show
  record_gold_and_emit bucket s = do
    envelope ←
        build env (curated_draft "pipeline.gold.completed.v1" s.run (gold_completed bucket s))
    place ← produce env "pipeline.gold.completed.v1" envelope s.run.run_id
    transact env (record_gold bucket s envelope place)

  abbrev payload_item : String → Value → Value
  payload_item k (obj fs) = get k fs
  payload_item k v = str "unknown"

  -- `_emit_failure_event` of aggregation.py
  unfoldable pub emit_gold_failure : Fields → String → Exec World Unit
  emit_gold_failure conf dag_run_id = do
    payload ← lift (dict_or_empty (get "payload" conf))
    emit_failure_of env conf dag_run_id "pipeline.gold.failed.v1" (
        dict (
          ("message", str "Gold curated aggregation failed")
          ∷ ("stage", str "gold")
          ∷ ("metric", payload_item "metric" (get "payload" conf))
          ∷ ("output_table", payload_item "output_table" (get "payload" conf))
          ∷ ("parent_run_id", get "run_id" conf)
          ∷ ("record_count", int (pos 0))
          ∷ ("input_uris", arr (cons (or_else (get "output_table" payload) (str "")) nil))
          ∷ ("output_uris", arr nil)
          ∷ ("transform_id", str "gold_curated_aggregation")
          ∷ ("transform_version", str "v1")
          ∷ []))
