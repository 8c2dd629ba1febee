-- ===== src/Envelope.antt =====
-- services/libs/redpanda_events/envelope.py: the enumerations, the fields and the validators.
-- A UUID stands by its text, an aware datetime by its instant. The validator
-- `_require_tz` stands with `Envelope.build` in World.antt. The hash of a payload is an argument (`hashlib`, `json.dumps`).
use Prim.Native.Nat.{ℕ, ◌+◌}
use Prim.Native.String.{count}
use text.Mathlib.Text.{starts_with}
use fintech_data_platform.Prelude.{String, not, ◌||◌, Option, eqb, if◌then◌else◌}
use fintech_data_platform.Prelude.Text.{is_blank}
use fintech_data_platform.Exec.{Result, ok, err, failure, ErrorKind}
use fintech_data_platform.Json.{Fields}

pub data EventSource : Type 0 where
  excel cdc salesforce orchestration notification : EventSource

pub data PipelineClass : Type 0 where
  ingestion curated : PipelineClass

pub data PipelineName : Type 0 where
  excel_ingestion cdc_ingestion cdc_bronze_write : PipelineName
  salesforce_ingestion curated_promotion : PipelineName

-- `.value`
abbrev pub class_value : PipelineClass → String
class_value ingestion = "ingestion"
class_value curated = "curated"

abbrev pub name_value : PipelineName → String
name_value excel_ingestion = "excel_ingestion"
name_value cdc_ingestion = "cdc_ingestion"
name_value cdc_bronze_write = "cdc_bronze_write"
name_value salesforce_ingestion = "salesforce_ingestion"
name_value curated_promotion = "curated_promotion"

abbrev pub schema_version : String
schema_version = "v1"

abbrev pub hash_prefix : String
hash_prefix = "sha256-"

pub record Envelope : Type 0 where
  pub event_id : String
  pub event_type : String
  pub source : EventSource
  pub run_id : String
  pub pipeline_class : PipelineClass
  pub pipeline_name : PipelineName
  pub parent_run_id : Option String
  pub trigger_event_ref : String
  pub trace_id : String
  pub occurred_at : ℕ
  pub version : String
  pub payload_hash : String
  pub payload : Fields

-- `_non_empty_ref`
unfoldable pub non_empty_ref : String → Result String
unfolding is_blank
non_empty_ref value =
    if is_blank value
    then err (failure ErrorKind.value_error "trigger_event_ref must not be empty")
    else ok value

-- `_well_formed_hash`
unfoldable pub well_formed_hash : String → Result String
well_formed_hash value =
    if not (starts_with value hash_prefix) || not (eqb (count value) (count hash_prefix + 64))
    then err (failure ErrorKind.value_error "payload_hash must be sha256-<64 hex chars>")
    else ok value
