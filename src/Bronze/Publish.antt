-- ===== src/Bronze/Publish.antt =====
-- services/workers/cdc_bronze_writer/main.py: the run, the event and the checkpoint of every batch,
-- and `_flush`.
use fintech_data_platform.Prelude.{ℕ, String, Option, none, some, List, [], ◌∷◌, if◌then◌else◌}
use fintech_data_platform.Prelude.Int.{pos, negsuc}
use fintech_data_platform.Prelude.Text.{concat}
use fintech_data_platform.Json.{Value, int, str, arr, dict, strings, is_null}
use fintech_data_platform.Library.{Library, str_of}
use fintech_data_platform.Envelope.{Envelope, EventSource, PipelineClass, PipelineName}
use fintech_data_platform.Exec.{Exec, Error, pure, raise, lift, catch, ◌>>=◌, ◌>>◌}
use fintech_data_platform.EventStore.{
  CdcCheckpoint, Db, open_run, close_run, append_event, raise_alert, append_cdc_checkpoint,
}
use fintech_data_platform.World.{World, Env, Draft, on_store, draw_time, build, produce, transact}
use fintech_data_platform.Bronze.Row.{AssessedRecord}
use fintech_data_platform.Bronze.Flush.{build_flush}
use fintech_data_platform.Bronze.Batches.{Writer, PreparedBatch, topic_bronze_ready, write_batches}

abbrev pub topic_bronze_prepared : String
topic_bronze_prepared = "cdc.oltp.bronze.prepared.v1"

abbrev topic_internal : String
topic_internal = "event_store.internal"

abbrev pub prepared_draft : PreparedBatch → String → Draft
prepared_draft b run_id = record {
  event_id = none;
  event_type = topic_bronze_prepared;
  source = EventSource.cdc;
  run_id = run_id;
  pipeline_class = PipelineClass.ingestion;
  pipeline_name = PipelineName.cdc_bronze_write;
  parent_run_id = none;
  trigger_event_ref = b.trigger_event_ref;
  trace_id = b.envelope.trace_id;
  occurred_at = none;
  payload = dict (
      ("stage", str "bronze")
      ∷ ("state", str "prepared")
      ∷ ("source_table", str b.source_table)
      ∷ ("output_uris", arr (strings (b.bronze_uri ∷ [])))
      ∷ ("record_count", int (pos b.record_count))
      ∷ ("first_lsn", b.first_lsn)
      ∷ ("last_lsn", b.last_lsn)
      ∷ []);
}

-- the text column that takes an LSN
abbrev lsn_column : Library → Value → Option String
lsn_column lib v = if is_null v then none else some (str_of lib v)

module _ (env : Env) where
  abbrev pub opening : PreparedBatch → Exec Db String
  opening b = open_run (record {
    run_id = b.run_id;
    pipeline_class = PipelineClass.ingestion;
    pipeline_name = PipelineName.cdc_bronze_write;
    source_system = "cdc";
    trigger_type = "cdc_bronze_batch";
    trigger_event_ref = b.trigger_event_ref;
    initiator = "cdc_bronze_writer";
    status = "running";
    parent_run_id = none;
  })

  abbrev pub preparing : PreparedBatch → Exec World (String × Envelope)
  preparing b = do
    run_id ← on_store (opening b)
    prepared ← build env (prepared_draft b run_id)
    inserted ← on_store (append_event prepared topic_internal (negsuc 0) (negsuc 0))
    pure (run_id, record b.envelope { run_id = run_id })

  -- `_prepare_batch_run`: the id of the run and the envelope with that id
  unfoldable pub prepare_batch_run : PreparedBatch → Exec World (String × Envelope)
  prepare_batch_run b = transact env (preparing b)

  unfoldable pub published_checkpoint : PreparedBatch → String → CdcCheckpoint
  unfolding str_of
  published_checkpoint b run_id = record {
    run_id = run_id;
    source_table = b.source_table;
    lsn_start = lsn_column env.library b.first_lsn;
    lsn_end = lsn_column env.library b.last_lsn;
    kafka_partition = pos b.kafka_partition;
    offset_start = pos b.offset_start;
    offset_end = pos b.offset_end;
    record_count = b.record_count;
    recorded_at = 0;
  }

  abbrev pub recorded_batch : PreparedBatch → String → Envelope → ℕ → ℕ → Exec World Unit
  recorded_batch b run_id ready partition offset = do
    inserted ← on_store (append_event ready topic_bronze_ready (pos partition) (pos offset))
    on_store (append_cdc_checkpoint (published_checkpoint b run_id))
    done ← draw_time env
    on_store (close_run run_id "completed" done)

  -- `_finalize_published_batch`
  unfoldable pub finalize_published_batch :
      PreparedBatch → String → Envelope → ℕ × ℕ → Exec World Unit
  finalize_published_batch b run_id ready (partition, offset) =
      transact env (recorded_batch b run_id ready partition offset)

  -- `_mark_batch_failed`
  unfoldable pub mark_batch_failed : PreparedBatch → String → Error → Exec World Unit
  mark_batch_failed b run_id e = transact env (do
    at ← draw_time env
    on_store (
        raise_alert (record {
          run_id = run_id;
          severity = "high";
          category = "cdc_bronze_ready_publish_failed";
          summary = "CDC bronze-ready publish failed";
          details = dict (
              ("error", str e.message)
              ∷ ("source_table", str b.source_table)
              ∷ ("trigger_event_ref", str b.trigger_event_ref)
              ∷ ("output_uri", str b.bronze_uri)
              ∷ []);
          occurred_at = at;
        }))
    done ← draw_time env
    on_store (close_run run_id "failed" done))

  abbrev pub publish_prepared : PreparedBatch → String × Envelope → Exec World Unit
  publish_prepared b (run_id, ready) = do
    place ← produce env topic_bronze_ready ready (concat (b.source_table ∷ ":" ∷ run_id ∷ []))
    finalize_published_batch b run_id ready place

  -- The error of the publication goes on, whether or not the failure can be recorded.
  abbrev pub record_batch_failure : PreparedBatch → String → Error → Exec World Unit
  record_batch_failure b run_id e = catch (mark_batch_failed b run_id e) (λ _. pure tt) >> raise e

  -- The body of the loop of `_flush`.
  unfoldable pub publish_batch : PreparedBatch → Exec World Unit
  publish_batch b = do
    opened ← prepare_batch_run b
    catch (publish_prepared b opened) (λ e. record_batch_failure b opened.0 e)

  unfoldable pub publish_batches : List PreparedBatch → Exec World Unit
  publish_batches [] = pure tt
  publish_batches (b ∷ bs) = publish_batch b >> publish_batches bs

  -- `_flush` of a batch that is not empty, up to the commit
  unfoldable pub flush_records : Writer → List AssessedRecord → Exec World Unit
  flush_records writer records = do
    flush ← lift (build_flush env.library records)
    batches ← write_batches env writer flush
    publish_batches batches
