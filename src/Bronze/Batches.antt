-- ===== src/Bronze/Batches.antt =====
-- services/workers/cdc_bronze_writer/writer.py: `write_batches`, one object and one envelope for
-- each table of a flush.
use fintech_data_platform.Prelude.{
  ℕ, String, ◌==◌, none, List, [], ◌∷◌, min, max, map, length, if◌then◌else◌,
}
use fintech_data_platform.Prelude.Int.{pos}
use fintech_data_platform.Prelude.Text.{four_digits, two_digits, concat, show, text_less}
use fintech_data_platform.Json.{Value, int, str, arr, dict, strings}
use fintech_data_platform.Library.{Library, str_of}
use fintech_data_platform.Envelope.{Envelope, EventSource, PipelineClass, PipelineName}
use fintech_data_platform.Exec.{Exec, Result, failure, ErrorKind, pure, lift, raise, ◌>>=◌, ◌>>◌}
use fintech_data_platform.World.{World, Env, Draft, draw_uuid, draw_time, build}
use fintech_data_platform.Lake.{write_uri}
use fintech_data_platform.Bronze.Row.{BatchRow}
use fintech_data_platform.Bronze.Flush.{Table, FlushResult}

-- The settings of `CdcBronzeWriter`; `parquet` is `rows_to_parquet_bytes`, which is pyarrow's, with
-- a text for the bytes.
pub record Writer : Type 0 where
  pub bucket : String
  pub parquet : List BatchRow → Result String

pub record PreparedBatch : Type 0 where
  pub run_id : String
  pub source_table : String
  pub first_lsn : Value
  pub last_lsn : Value
  pub kafka_partition : ℕ
  pub offset_start : ℕ
  pub offset_end : ℕ
  pub record_count : ℕ
  pub bronze_uri : String
  pub envelope : Envelope
  pub trigger_event_ref : String

abbrev pub topic_bronze_ready : String
topic_bronze_ready = "cdc.oltp.bronze.ready.v1"

-- `bronze_object_key`
unfoldable pub bronze_object_key : Library → String → String → ℕ → String
unfolding show
bronze_object_key lib source_table run_id written_at =
    let (year, month, day, hour) = lib.calendar written_at in
    concat (
      "bronze/source=cdc/table="
      ∷ source_table
      ∷ "/year="
      ∷ four_digits year
      ∷ "/month="
      ∷ two_digits month
      ∷ "/day="
      ∷ two_digits day
      ∷ "/hour="
      ∷ two_digits hour
      ∷ "/run_id="
      ∷ run_id
      ∷ "/part-0.parquet"
      ∷ [])

-- `bronze_uri`
abbrev pub bronze_uri : String → String → String
bronze_uri bucket key = concat ("s3://" ∷ bucket ∷ "/" ∷ key ∷ [])

-- `sorted({...})` of texts
abbrev insert_text : String → List String → List String
insert_text s [] = s ∷ []
insert_text s (t ∷ ts) =
    let rest = insert_text s ts in
    if s == t then t ∷ ts else if text_less s t then s ∷ t ∷ ts else t ∷ rest

unfoldable pub sorted_set : List String → List String
unfolding text_less
sorted_set [] = []
sorted_set (s ∷ ss) = insert_text s (sorted_set ss)

abbrev pub least : ℕ → List ℕ → ℕ
least n [] = n
least n (m ∷ ms) = min n (least m ms)

abbrev pub greatest : ℕ → List ℕ → ℕ
greatest n [] = n
greatest n (m ∷ ms) = max n (greatest m ms)

-- `rows[-1]` of a list that is not empty
abbrev pub last_of : BatchRow → List BatchRow → BatchRow
last_of row [] = row
last_of row (r ∷ rs) = last_of r rs

abbrev input_uri : BatchRow → String
input_uri r =
    concat
      ("kafka://" ∷ r.kafka_topic ∷ "/" ∷ show r.kafka_partition ∷ "/" ∷ show r.kafka_offset ∷ [])

abbrev pub offset_of : BatchRow → ℕ
offset_of r = r.kafka_offset

abbrev partition_of : BatchRow → ℕ
partition_of r = r.kafka_partition

module _ (env : Env) (writer : Writer) where
  -- the reference to a batch: the offsets of its first and last row
  abbrev pub batch_ref : String → BatchRow → List BatchRow → String
  batch_ref table first rest = concat (
      "cdc_bronze_batch:"
      ∷ table
      ∷ ":"
      ∷ show (least first.kafka_partition (map partition_of rest))
      ∷ ":"
      ∷ show first.kafka_offset
      ∷ "-"
      ∷ show (last_of first rest).kafka_offset
      ∷ [])

  unfoldable pub ready_draft :
      Value → String → String → String → String → BatchRow → List BatchRow → Draft
  unfolding sorted_set
  ready_draft table ref uri run_id trace_id first rest = record {
    event_id = none;
    event_type = topic_bronze_ready;
    source = EventSource.cdc;
    run_id = run_id;
    pipeline_class = PipelineClass.ingestion;
    pipeline_name = PipelineName.cdc_bronze_write;
    parent_run_id = none;
    trigger_event_ref = ref;
    trace_id = trace_id;
    occurred_at = none;
    payload = dict (
        ("stage", str "bronze")
        ∷ ("format", str "parquet")
        ∷ ("input_uris", arr (strings (sorted_set (map input_uri (first ∷ rest)))))
        ∷ ("output_uris", arr (strings (uri ∷ [])))
        ∷ ("record_count", int (pos (length (first ∷ rest))))
        ∷ ("first_lsn", first.source_lsn)
        ∷ ("last_lsn", (last_of first rest).source_lsn)
        ∷ ("source_table", table)
        ∷ []);
  }

  -- The body of the loop for one table, whose rows are `first` and `rest`.
  unfoldable pub write_batch : ℕ → Value → BatchRow → List BatchRow → Exec World PreparedBatch
  unfolding str_of
  write_batch moment table first rest = do
    bytes ← lift (writer.parquet (first ∷ rest))
    run_id ← draw_uuid env
    trace_id ← draw_uuid env
    let name = str_of env.library table
    let uri = bronze_uri writer.bucket (bronze_object_key env.library name run_id moment)
    write_uri env uri bytes
    let ref = batch_ref name first rest
    envelope ← build env (ready_draft table ref uri run_id trace_id first rest)
    pure (record {
      run_id = run_id;
      source_table = name;
      first_lsn = first.source_lsn;
      last_lsn = (last_of first rest).source_lsn;
      kafka_partition = least first.kafka_partition (map partition_of rest);
      offset_start = least first.kafka_offset (map offset_of rest);
      offset_end = greatest first.kafka_offset (map offset_of rest);
      record_count = length (first ∷ rest);
      bronze_uri = uri;
      envelope = envelope;
      trigger_event_ref = ref;
    })

  -- No table of a flush is without rows; `rows[0]` of one would raise.
  abbrev pub write_table : ℕ → Value → List BatchRow → Exec World PreparedBatch
  write_table moment table [] = raise (failure ErrorKind.external_error "list index out of range")
  write_table moment table (first ∷ rest) = write_batch moment table first rest

  unfoldable pub write_tables : ℕ → List Table → Exec World (List PreparedBatch)
  write_tables moment [] = pure []
  write_tables moment (t ∷ ts) = do
    batch ← write_table moment t.source_table t.rows
    batches ← write_tables moment ts
    pure (batch ∷ batches)

  -- `CdcBronzeWriter.write_batches`, at the time that it takes from the clock
  unfoldable pub write_batches : FlushResult → Exec World (List PreparedBatch)
  write_batches flush = do moment ← draw_time env; write_tables moment flush.by_table
