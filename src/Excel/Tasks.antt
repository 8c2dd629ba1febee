-- ===== src/Excel/Tasks.antt =====
-- services/pipeline/excel_validation: the tasks up to the branch. A task hands a dict to the next.
use fintech_data_platform.Prelude.{ℕ, String, Option, List, [], ◌∷◌, all, if◌then◌else◌}
use fintech_data_platform.Prelude.Int.{pos}
use fintech_data_platform.Prelude.Text.{concat}
use fintech_data_platform.Json.{bool, int, str, arr, obj, Fields, has, put, puts, truthy}
use fintech_data_platform.Library.{Library, a_text, item, str_of}
use fintech_data_platform.Exec.{
  ErrorKind, Exec, Result, err, failure, lift, ok, pure, ◌>>=◌, ◌>>◌, ◌>>>◌,
}
use fintech_data_platform.World.{Env, World, draw_time}
use fintech_data_platform.Lake.{copy_object, get_object, leaf_of, run_folder}
use fintech_data_platform.Excel.Contract.{
  DataFrame, SchemaContract, ValidationResult, errors_as_list, validate_dataframe,
}

abbrev pub topic_excel_raw_ready : String
topic_excel_raw_ready = "ingest.excel.raw.ready.v1"

abbrev pub topic_quarantined : String
topic_quarantined = "ingest.excel.quarantined.v1"

-- The files of the contracts, pandas, and `base64`, with the number of bytes of a text that stands
-- for bytes.
pub record Validation : Type 0 where
  pub default_contract_id : String
  -- `load_contract`, of the file `<id>.json`
  pub load_contract : String → Result SchemaContract
  -- `load_workbook`
  pub load_workbook : String → Option String → Result DataFrame
  pub b64 : String → String
  pub b64_decode : String → Result String
  pub byte_length : String → ℕ

abbrev pub required_fields : List String
required_fields = "bucket" ∷ "object_key" ∷ "run_id" ∷ "trigger_event_ref" ∷ "trace_id" ∷ []

-- `parse_conf`, of the conf of the run
unfoldable pub parse_conf : Validation → Fields → Result Fields
parse_conf v conf =
    if all (λ k. has k conf) required_fields
    then ok (
        if has "schema_contract_id" conf
        then conf
        else put "schema_contract_id" (str v.default_contract_id) conf)
    else err (failure ErrorKind.workflow_error "dag_run.conf missing fields")

-- `d[k]` where a text is needed
abbrev pub text_at : String → Fields → Result String
text_at k fs = item k (obj fs) >>> a_text

module _ (lib : Library) where
  -- `f"{d[k]}"`
  abbrev pub shown_at : String → Fields → Result String
  shown_at k fs = item k (obj fs) >>> λ v. ok (str_of lib v)

  abbrev pub with_result : SchemaContract → ValidationResult → Fields → Fields
  with_result contract result = puts (
      ("passed", bool result.passed)
      ∷ ("row_count", int (pos result.row_count))
      ∷ ("errors", arr (errors_as_list result.errors))
      ∷ ("contract_id", str contract.contract_id)
      ∷ [])

  -- `validate`
  unfoldable pub validate : Validation → Fields → Result Fields
  unfolding str_of validate_dataframe
  validate v downloaded = shown_at "schema_contract_id" downloaded >>> λ id.
      v.load_contract id >>> λ contract.
      text_at "_payload_b64" downloaded >>> v.b64_decode >>> λ payload.
      v.load_workbook payload contract.sheet_name >>> λ df.
      ok (with_result contract (validate_dataframe df contract) downloaded)

-- `route_validation_outcome`
unfoldable pub route_validation_outcome : Fields → Result String
route_validation_outcome validated = item "passed" (obj validated) >>> λ passed.
    ok (if truthy passed then "write_raw" else "write_quarantine")

module _ (env : Env) where
  -- `download_object`
  unfoldable pub download_object : Validation → Fields → Exec World Fields
  download_object v parsed = do
    bucket ← lift (text_at "bucket" parsed)
    key ← lift (text_at "object_key" parsed)
    bytes ← get_object env bucket key
    pure (
        puts
          (("payload_size_bytes", int (pos (v.byte_length bytes)))
            ∷ ("_payload_b64", str (v.b64 bytes))
            ∷ [])
          parsed)

  -- `_raw_key` and `_quarantine_key`, and the copy of the object to there
  abbrev pub copy_to : String → String → Fields → Exec World Fields
  copy_to prefix stage validated = do
    object_key ← lift (text_at "object_key" validated)
    run_id ← lift (shown_at env.library "run_id" validated)
    now ← draw_time env
    bucket ← lift (text_at "bucket" validated)
    dest_key ← pure (concat (run_folder env.library prefix now run_id ∷ leaf_of object_key ∷ []))
    copy_object env bucket object_key dest_key
    pure (puts (("stage", str stage) ∷ ("output_key", str dest_key) ∷ []) validated)

  -- `write_raw`
  unfoldable pub write_raw : Fields → Exec World Fields
  unfolding run_folder leaf_of
  write_raw = copy_to "raw/source=excel" "raw"

  -- `write_quarantine`
  unfoldable pub write_quarantine : Fields → Exec World Fields
  unfolding run_folder leaf_of
  write_quarantine = copy_to "quarantine/source=excel" "quarantine"
