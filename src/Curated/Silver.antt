-- ===== src/Curated/Silver.antt =====
-- services/pipeline/silver_curated: `open_curated_run`, `record_checkpoint_and_emit_event` and the
-- failure callback of promotion.py. What a task hands to the next stands as a record.
use fintech_data_platform.Prelude.{
  ℕ, String, Bool, not, Option, none, some, List, [], ◌∷◌, if◌then◌else◌,
}
use fintech_data_platform.Prelude.Int.{ℤ, pos}
use fintech_data_platform.Prelude.Text.{concat, show}
use fintech_data_platform.Json.{
  Value, int, str, arr, Items, nil, Fields, end, dict, get, get_or, or_else, strings, truthy,
}
use fintech_data_platform.Library.{a_text, dict_or_empty}
use fintech_data_platform.Envelope.{Envelope}
use fintech_data_platform.Exec.{ErrorKind, Exec, Result, err, failure, lift, ok, pure, ◌>>=◌, ◌>>◌}
use fintech_data_platform.EventStore.{
  CuratedCheckpoint, append_event, append_silver_checkpoint, close_run,
}
use fintech_data_platform.World.{
  Env, World, build, draw_time, draw_uuid, on_store, produce, transact,
}
use fintech_data_platform.Ready.Salesforce.{list_or_empty}
use fintech_data_platform.Curated.Specs.{SilverSpec, resolve_silver_spec}
use fintech_data_platform.Curated.Runs.{
  CuratedRun, curated_draft, emit_failure_of, open_run_and_append_started, or_new_uuid, text_list,
  uuid_value,
}

-- What `open_curated_run` hands on.
pub record OpenedRun : Type 0 where
  pub run : CuratedRun
  pub parent_run_id : String
  pub bronze_uris : Items
  pub bronze_record_count : ℤ
  pub spec : SilverSpec

-- What the staging and the merge add.
pub record SilverState : Type 0 where
  pub opened : OpenedRun
  pub staged_row_count : ℕ
  pub merge_inserted : ℕ
  pub merge_updated : ℕ
  pub merge_closed : ℕ

abbrev pub refused : String → Result (Unit {0})
refused reason = err (failure ErrorKind.workflow_error reason)

abbrev pub require : Bool → String → Result (Unit {0})
require b reason = if b then ok tt else refused reason

abbrev pub required_spec : Option SilverSpec → Result SilverSpec
required_spec none = err (
    failure ErrorKind.workflow_error "bronze envelope did not resolve to a supported silver domain")
required_spec (some spec) = ok spec

abbrev pub is_empty_dict : Fields → Bool
is_empty_dict end = Bool.true
is_empty_dict _ = Bool.false

module _ (env : Env) where
  abbrev pub silver_started : SilverSpec → Value → Value → Fields
  silver_started spec parent uris = dict (
      ("message", str "Silver curated promotion started.")
      ∷ ("stage", str "silver")
      ∷ ("silver_domain", str spec.domain)
      ∷ ("output_table", str spec.output_table)
      ∷ ("parent_run_id", parent)
      ∷ ("input_uris", uris)
      ∷ ("transform_id", str spec.transform_id)
      ∷ ("transform_version", str "v1")
      ∷ [])

  -- The run is opened; then the number of records is read.
  abbrev pub open_silver_run : Fields → Fields → SilverSpec → Exec World OpenedRun
  open_silver_run conf payload spec = do
    trace_value ← or_new_uuid env (get "trace_id" conf)
    curated_id ← draw_uuid env
    trace_id ← lift (uuid_value env trace_value)
    parent ← lift (uuid_value env (get "run_id" conf))
    parent_text ← lift (a_text (get "run_id" conf))
    run ← pure (record {
      run_id = curated_id;
      parent_run_id = some parent;
      trace_id = trace_id;
      trigger_event_ref = concat ("silver_curated_promotion__" ∷ parent_text ∷ []);
    })
    id ←
        open_run_and_append_started env run "pipeline.silver.started.v1"
          (silver_started spec (get "run_id" conf) (get "output_uris" payload))
    uris ← lift (list_or_empty env.library (get "output_uris" payload))
    count ← lift (env.library.int_of (or_else (get "record_count" payload) (int (pos 0))))
    pure (record {
      run = record run { run_id = id };
      parent_run_id = parent;
      bronze_uris = uris;
      bronze_record_count = count;
      spec = spec;
    })

  -- `open_curated_run`
  unfoldable pub open_curated_run : Fields → Exec World OpenedRun
  unfolding resolve_silver_spec
  open_curated_run conf = do
    lift (require (not (is_empty_dict conf)) "triggered without a bronze envelope in conf")
    lift (require (truthy (get "run_id" conf)) "bronze envelope missing run_id")
    payload ← lift (dict_or_empty (get "payload" conf))
    lift
        (require (truthy (get "output_uris" payload)) "bronze envelope payload missing output_uris")
    resolved ← lift (resolve_silver_spec env.library conf)
    spec ← lift (required_spec resolved)
    open_silver_run conf payload spec

  abbrev silver_output : String → String → String
  silver_output bucket domain = concat ("s3://" ∷ bucket ∷ "/silver/domain=" ∷ domain ∷ "/" ∷ [])

  abbrev silver_completed : String → SilverState → Fields
  silver_completed bucket s =
      let o = s.opened in
      dict (
        (
          "message",
          str (
              concat (
                "Promoted "
                ∷ show s.staged_row_count
                ∷ " rows to silver domain "
                ∷ o.spec.domain
                ∷ "."
                ∷ [])),
        )
        ∷ ("stage", str "silver")
        ∷ ("silver_domain", str o.spec.domain)
        ∷ ("output_table", str o.spec.output_table)
        ∷ ("parent_run_id", str o.parent_run_id)
        ∷ ("record_count", int (pos s.staged_row_count))
        ∷ ("merge_inserted", int (pos s.merge_inserted))
        ∷ ("merge_updated", int (pos s.merge_updated))
        ∷ ("merge_closed", int (pos s.merge_closed))
        ∷ ("input_uris", arr o.bronze_uris)
        ∷ ("output_uris", arr (strings (silver_output bucket o.spec.domain ∷ [])))
        ∷ ("transform_id", str o.spec.transform_id)
        ∷ ("transform_version", str "v1")
        ∷ [])

  abbrev silver_checkpoint : String → SilverState → List String → CuratedCheckpoint
  silver_checkpoint bucket s uris = record {
    run_id = s.opened.run.run_id;
    parent_run_id = s.opened.parent_run_id;
    subject = s.opened.spec.domain;
    input_uris = uris;
    output_table = s.opened.spec.output_table;
    output_uris = silver_output bucket s.opened.spec.domain ∷ [];
    record_count = s.staged_row_count;
    merge_inserted = s.merge_inserted;
    merge_updated = s.merge_updated;
    merge_closed = s.merge_closed;
    recorded_at = 0;
  }

  abbrev pub record_silver : String → SilverState → Envelope → ℕ × ℕ → Exec World Unit
  record_silver bucket s envelope (partition, offset) = do
    uris ← lift (text_list s.opened.bronze_uris)
    on_store (append_silver_checkpoint (silver_checkpoint bucket s uris))
    inserted ←
        on_store (append_event envelope "pipeline.silver.completed.v1" (pos partition) (pos offset))
    done ← draw_time env
    on_store (close_run s.opened.run.run_id "completed" done)

  -- `record_checkpoint_and_emit_event`, with the bucket of the settings
  unfoldable pub record_silver_and_emit : String → SilverState → Exec World Unit
  unfolding show
  record_silver_and_emit bucket s = do
    envelope ←
        build env
          (curated_draft "pipeline.silver.completed.v1" s.opened.run (silver_completed bucket s))
    place ← produce env "pipeline.silver.completed.v1" envelope s.opened.run.run_id
    transact env (record_silver bucket s envelope place)

  abbrev or_unknown : Value → Value
  or_unknown v = or_else v (str "unknown")

  -- `_emit_failure_event` of promotion.py
  unfoldable pub emit_silver_failure : Fields → String → Exec World Unit
  emit_silver_failure conf dag_run_id = do
    payload ← lift (dict_or_empty (get "payload" conf))
    emit_failure_of env conf dag_run_id "pipeline.silver.failed.v1" (
        dict (
          ("message", str "Silver curated promotion failed")
          ∷ ("stage", str "silver")
          ∷ ("silver_domain", or_unknown (get "_curated_silver_domain" conf))
          ∷ ("output_table", or_unknown (get "_curated_silver_output_table" conf))
          ∷ ("parent_run_id", get "run_id" conf)
          ∷ ("record_count", int (pos 0))
          ∷ ("input_uris", get_or "output_uris" (arr nil) payload)
          ∷ ("output_uris", arr nil)
          ∷ (
            "transform_id",
            or_else (get "_curated_silver_transform_id" conf) (str "silver_curated_promotion"),
          )
          ∷ ("transform_version", str "v1")
          ∷ []))
