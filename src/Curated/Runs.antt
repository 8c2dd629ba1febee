-- ===== src/Curated/Runs.antt =====
-- The life of a curated run in the event store: `open_curated_run_and_append_started_event`,
-- `emit_curated_failure_event` and `safe_emit_curated_failure_event` of
-- services/pipeline/curated_dag_helpers.py, and what the two `record_checkpoint_and_emit_event`
-- share.
pub mod Failures
use fintech_data_platform.Prelude.{
  ℕ, String, Bool, true, false, Option, none, some, List, [], ◌∷◌, if◌then◌else◌,
}
use fintech_data_platform.Prelude.Int.{ℤ, pos, negsuc}
use fintech_data_platform.Json.{Value, str, Items, nil, cons, Fields, get, or_else, truthy}
use fintech_data_platform.Library.{Library, a_text, str_of}
use fintech_data_platform.Envelope.{Envelope, EventSource, PipelineClass, PipelineName}
use fintech_data_platform.Exec.{Exec, Result, catch, lift, ok, pure, ◌>>=◌, ◌>>◌, ◌>>>◌}
use fintech_data_platform.EventStore.{append_event, close_run, open_run, raise_alert}
use fintech_data_platform.World.{
  Draft, Env, World, build, draw_time, draw_uuid, on_store, produce, transact,
}
use fintech_data_platform.Ready.Excel.{uuid}

-- What all events of one curated run have.
pub record CuratedRun : Type 0 where
  pub run_id : String
  pub parent_run_id : Option String
  pub trace_id : String
  pub trigger_event_ref : String

abbrev pub curated_draft : String → CuratedRun → Fields → Draft
curated_draft topic r payload = record {
  event_id = none;
  event_type = topic;
  source = EventSource.orchestration;
  run_id = r.run_id;
  pipeline_class = PipelineClass.curated;
  pipeline_name = PipelineName.curated_promotion;
  parent_run_id = r.parent_run_id;
  trigger_event_ref = r.trigger_event_ref;
  trace_id = r.trace_id;
  occurred_at = none;
  payload = payload;
}

module _ (env : Env) where
  -- `open_curated_run_and_append_started_event`
  unfoldable pub open_run_and_append_started : CuratedRun → String → Fields → Exec World String
  open_run_and_append_started r topic payload = transact env (do
    id ← on_store (
        open_run (record {
          run_id = r.run_id;
          pipeline_class = PipelineClass.curated;
          pipeline_name = PipelineName.curated_promotion;
          source_system = "curated";
          trigger_type = "event";
          trigger_event_ref = r.trigger_event_ref;
          initiator = "airflow";
          status = "running";
          parent_run_id = r.parent_run_id;
        }))
    started ← build env (curated_draft topic (record r { run_id = id }) payload)
    inserted ← on_store (append_event started topic (negsuc 0) (negsuc 0))
    pure id)

  abbrev pub record_failed : CuratedRun → String → Fields → Envelope → ℕ × ℕ → Exec World Unit
  record_failed r topic payload envelope (partition, offset) = do
    inserted ← on_store (append_event envelope topic (pos partition) (pos offset))
    done ← draw_time env
    on_store (close_run r.run_id "failed" done)
    at ← draw_time env
    on_store (
        raise_alert (record {
          run_id = r.run_id;
          severity = "high";
          category = "curated_promotion_failed";
          summary =
              str_of env.library (or_else (get "message" payload) (str "Curated promotion failed"));
          details = payload;
          occurred_at = at;
        }))

  -- `emit_curated_failure_event`
  unfoldable pub emit_curated_failure : CuratedRun → String → Fields → Exec World Unit
  unfolding str_of
  emit_curated_failure r topic payload = do
    envelope ← build env (curated_draft topic r payload)
    place ← produce env topic envelope envelope.run_id
    transact env (record_failed r topic payload envelope place)

  -- `safe_emit_curated_failure_event`
  unfoldable pub safe_emit_curated_failure : CuratedRun → String → Fields → Exec World Unit
  unfolding emit_curated_failure
  safe_emit_curated_failure r topic payload =
      catch (emit_curated_failure r topic payload) (λ e. pure tt)

  -- `v or str(uuid4())`
  abbrev pub or_new_uuid : Value → Exec World Value
  or_new_uuid v = if truthy v then pure v else (do id ← draw_uuid env; pure (str id))

  -- `UUID(v)`
  abbrev pub uuid_value : Value → Result String
  uuid_value v = a_text v >>> uuid env.library

  -- `UUID(v) if v else None`
  abbrev pub optional_uuid : Value → Result (Option String)
  optional_uuid v = if truthy v then (uuid_value v >>> λ id. ok (some id)) else ok none

  -- `UUID(v) if v else uuid4()`
  abbrev pub uuid_or_new : Value → Exec World String
  uuid_or_new v = if truthy v then lift (uuid_value v) else draw_uuid env

  abbrev pub run_of : String → Option String → String → String → CuratedRun
  run_of run_id parent trace ref = record {
    run_id = run_id;
    parent_run_id = parent;
    trace_id = trace;
    trigger_event_ref = ref;
  }

  abbrev pub emit_failure_for : Fields → String → String → Fields → String → Exec World Unit
  emit_failure_for conf dag_run_id topic payload run_id = do
    parent ← lift (optional_uuid (get "run_id" conf))
    trace ← uuid_or_new (get "trace_id" conf)
    ref ← lift (a_text (or_else (get "trigger_event_ref" conf) (str dag_run_id)))
    safe_emit_curated_failure (run_of run_id parent trace ref) topic payload

  -- the end of `_emit_failure_event`, the callback of both DAGs
  unfoldable pub emit_failure_of : Fields → String → String → Fields → Exec World Unit
  unfolding safe_emit_curated_failure
  emit_failure_of conf dag_run_id topic payload = do
    run_value ← or_new_uuid (get "_curated_run_id" conf)
    run_id ← lift (uuid_value run_value)
    emit_failure_for conf dag_run_id topic payload run_id

-- `list(v)` of texts, for a column of texts
abbrev pub text_list : Items → Result (List String)
text_list nil = ok []
text_list (cons v vs) = a_text v >>> λ s. text_list vs >>> λ rest. ok (s ∷ rest)
