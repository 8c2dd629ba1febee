-- ===== src/Excel/Emit.antt =====
-- services/pipeline/excel_validation: `emit_event`, and one passage through the tasks in the order
-- of pipeline.py. What Airflow does when a task fails (it runs the task again, up to three times)
-- is outside.
use fintech_data_platform.Prelude.{ℕ, String, Bool, ◌==◌, none, [], ◌∷◌, if◌then◌else◌}
use fintech_data_platform.Prelude.Int.{pos}
use fintech_data_platform.Prelude.Text.{concat}
use fintech_data_platform.Json.{Value, str, arr, obj, Fields, dict, puts, strings}
use fintech_data_platform.Library.{item}
use fintech_data_platform.Envelope.{Envelope, EventSource, PipelineClass, PipelineName}
use fintech_data_platform.Exec.{Exec, Result, lift, ok, pure, ◌>>=◌, ◌>>◌, ◌>>>◌}
use fintech_data_platform.EventStore.{append_event, close_run, raise_alert}
use fintech_data_platform.World.{Draft, Env, World, build, draw_time, on_store, produce, transact}
use fintech_data_platform.Ready.Excel.{uuid}
use fintech_data_platform.Excel.Tasks.{
  Validation, download_object, parse_conf, route_validation_outcome, shown_at, text_at,
  topic_excel_raw_ready, topic_quarantined, validate, write_quarantine, write_raw,
}

-- What `emit_event` reads of the outcome.
pub record Outcome : Type 0 where
  pub is_raw : Bool
  pub stage : Value
  pub bucket : String
  pub object_key : String
  pub output_key : String
  pub row_count : Value
  -- `schema_contract_id` of what is raw, `errors` of what is not
  pub detail : String × Value
  pub run_key : String
  pub run_id : String
  pub trace_id : String
  pub trigger_event_ref : String

-- `stage == "raw"`
abbrev is_raw_stage : Value → Bool
is_raw_stage (str s) = s == "raw"
is_raw_stage v = Bool.false

module _ (env : Env) where
  abbrev detail_of : Bool → Fields → Result (String × Value)
  detail_of is_raw fs =
      if is_raw
      then (item "contract_id" (obj fs) >>> λ v. ok ("schema_contract_id", v))
      else (item "errors" (obj fs) >>> λ v. ok ("errors", v))

  unfoldable pub read_outcome : Fields → Result Outcome
  read_outcome fs = item "stage" (obj fs) >>> λ stage.
      shown_at env.library "output_key" fs >>> λ output_key.
      shown_at env.library "bucket" fs >>> λ bucket.
      shown_at env.library "object_key" fs >>> λ object_key.
      item "row_count" (obj fs) >>> λ row_count. detail_of (is_raw_stage stage) fs >>> λ detail.
      text_at "run_id" fs >>> λ run_key. uuid env.library run_key >>> λ run_id.
      text_at "trigger_event_ref" fs >>> λ ref.
      text_at "trace_id" fs >>> uuid env.library >>> λ trace_id. ok (record {
        is_raw = is_raw_stage stage;
        stage = stage;
        bucket = bucket;
        object_key = object_key;
        output_key = output_key;
        row_count = row_count;
        detail = detail;
        run_key = run_key;
        run_id = run_id;
        trace_id = trace_id;
        trigger_event_ref = ref;
      })

  abbrev pub topic_of : Outcome → String
  topic_of o = if o.is_raw then topic_excel_raw_ready else topic_quarantined

  abbrev object_at : Outcome → String → Value
  object_at o key = arr (strings (concat ("s3://" ∷ o.bucket ∷ "/" ∷ key ∷ []) ∷ []))

  unfoldable pub outcome_draft : Outcome → Draft
  outcome_draft o = record {
    event_id = none;
    event_type = topic_of o;
    source = EventSource.excel;
    run_id = o.run_id;
    pipeline_class = PipelineClass.ingestion;
    pipeline_name = PipelineName.excel_ingestion;
    parent_run_id = none;
    trigger_event_ref = o.trigger_event_ref;
    trace_id = o.trace_id;
    occurred_at = none;
    payload = puts (o.detail ∷ []) (
        dict (
          (
            "message",
            str (
                concat (
                  (if o.is_raw
                    then "Excel upload accepted and landed to raw: "
                    else "Excel upload failed schema validation: ")
                  ∷ o.output_key
                  ∷ [])),
          )
          ∷ ("stage", o.stage)
          ∷ ("input_uris", object_at o o.object_key)
          ∷ ("output_uris", object_at o o.output_key)
          ∷ ("row_count", o.row_count)
          ∷ ("transform_id", str "excel_schema_validate")
          ∷ ("transform_version", str "v1")
          ∷ []));
  }

  -- the end of the run and the alert of what is not raw
  abbrev pub quarantine_run : Outcome → Exec World Unit
  quarantine_run o = do
    done ← draw_time env
    on_store (close_run o.run_id "quarantined" done)
    at ← draw_time env
    on_store (
        raise_alert (record {
          run_id = o.run_id;
          severity = "medium";
          category = "excel_schema_quarantined";
          summary =
              concat
                ("Excel upload quarantined: schema validation failed (" ∷ o.output_key ∷ ")" ∷ []);
          details =
              dict (
                ("object_key", str o.object_key)
                ∷ ("output_key", str o.output_key)
                ∷ o.detail
                ∷ []);
          occurred_at = at;
        }))

  abbrev pub record_outcome : Outcome → Envelope → ℕ × ℕ → Exec World Unit
  record_outcome o envelope (partition, offset) = do
    inserted ← on_store (append_event envelope (topic_of o) (pos partition) (pos offset))
    if o.is_raw then pure tt else quarantine_run o

  unfoldable pub publish_outcome : Outcome → Exec World Unit
  publish_outcome o = do
    envelope ← build env (outcome_draft o)
    place ← produce env (topic_of o) envelope o.run_key
    transact env (record_outcome o envelope place)

  -- `emit_event`, of the output of the branch that was taken
  unfoldable pub emit_event : Fields → Exec World Unit
  unfolding read_outcome
  emit_event fs = do o ← lift (read_outcome fs); publish_outcome o

  abbrev pub write_branch : String → Fields → Exec World Fields
  write_branch branch validated =
      if branch == "write_raw" then write_raw env validated else write_quarantine env validated

  -- the tasks of pipeline.py, for the conf of a run
  unfoldable pub validate_upload : Validation → Fields → Exec World Unit
  unfolding parse_conf route_validation_outcome validate
  validate_upload v conf = do
    parsed ← lift (parse_conf v conf)
    downloaded ← download_object env v parsed
    validated ← lift (validate env.library v downloaded)
    branch ← lift (route_validation_outcome validated)
    outcome ← write_branch branch validated
    emit_event outcome
