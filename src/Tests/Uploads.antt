-- ===== src/Tests/Uploads.antt =====
-- The theorems on the validation of an upload, at one upload.
use fintech_data_platform.Prelude.{String, ◌≡◌, refl, ◌↔◌, true, none, some, [], ◌∷◌}
use fintech_data_platform.Exec.{ok}
use fintech_data_platform.Json.{str, obj, Fields, dict}
use fintech_data_platform.Library.{Library}
use fintech_data_platform.Consumer.{Delivered}
use fintech_data_platform.Excel.Contract.{DataFrame, SchemaContract, validate_dataframe}
use fintech_data_platform.Excel.Verdict.{IsAccepted, validate_dataframe_passes}
use fintech_data_platform.Excel.Tasks.{Validation, parse_conf, validate, with_result}
use fintech_data_platform.Excel.Route.{IsRouted, validate-route}
use fintech_data_platform.Excel.Trigger.{
  Airflow, Posts, build_dag_run_payload, process_scanned, prepare_run, fetch_api_bearer_token,
  trigger_dag_run,
}
use fintech_data_platform.Excel.Trigger.Runs.{Carries, IsPosted, conf_round_trip, handled-IsPosted}
use fintech_data_platform.Tests.Sample.{sample_library}

abbrev payroll : SchemaContract
payroll = record {
  contract_id = "payroll_v1";
  sheet_name = none;
  required_columns = "employee_id" ∷ "net_amount" ∷ [];
  column_types = ("employee_id", "string") ∷ ("net_amount", "float64") ∷ [];
  disallow_null_columns = "employee_id" ∷ [];
}

abbrev sheet : DataFrame
sheet = record {
  columns =
      record { name = "employee_id"; dtype = "object"; null_count = 0 }
      ∷ record { name = "net_amount"; dtype = "int64"; null_count = 2 }
      ∷ [];
  rows = 5;
}

validate_dataframe_passes_example :
    (((validate_dataframe sheet payroll).passed ≡ true) ↔ IsAccepted sheet payroll)
    × ((validate_dataframe sheet payroll).row_count ≡ sheet.rows)
validate_dataframe_passes_example = validate_dataframe_passes sheet payroll

abbrev pub sample_validation : Validation
sample_validation = record {
  default_contract_id = "payroll_v1";
  load_contract = λ id. ok payroll;
  load_workbook = λ payload name. ok sheet;
  b64 = λ bytes. bytes;
  b64_decode = λ text. ok text;
  byte_length = λ bytes. 0;
}

abbrev downloaded : Fields
downloaded = dict (("schema_contract_id", str "payroll_v1") ∷ ("_payload_b64", str "xlsx") ∷ [])

abbrev validated : Fields
validated = with_result sample_library payroll (validate_dataframe sheet payroll) downloaded

validate-route_example : IsRouted sample_library sample_validation downloaded validated
unfolding validate
validate-route_example = validate-route sample_library sample_validation downloaded validated refl

abbrev scanned_event : Fields
scanned_event = dict (
    ("run_id", str "r-1")
    ∷ ("trace_id", str "t-1")
    ∷ ("trigger_event_ref", str "ref")
    ∷ ("payload", obj (dict (("bucket", str "lake") ∷ ("object_key", str "a.xlsx") ∷ [])))
    ∷ [])

abbrev scanned_conf : Fields
scanned_conf = dict (
    ("run_id", str "r-1")
    ∷ ("trace_id", str "t-1")
    ∷ ("trigger_event_ref", str "ref")
    ∷ ("bucket", str "lake")
    ∷ ("object_key", str "a.xlsx")
    ∷ ("schema_contract_id", str "payroll_v1")
    ∷ [])

conf_round_trip_example :
    (parse_conf sample_validation scanned_conf ≡ ok scanned_conf)
    × Carries scanned_event scanned_conf
unfolding build_dag_run_payload
conf_round_trip_example = conf_round_trip sample_validation scanned_event scanned_conf refl

abbrev scan_library : Library
scan_library = record sample_library { loads = λ text. ok (obj scanned_event) }

abbrev sample_airflow : Airflow
sample_airflow = record {
  now_text = λ n. "2026-01-01T00:00:00Z";
  token = λ n. ok (obj (dict (("access_token", str "secret") ∷ [])));
  post_run = λ n id. ok 200;
  raise_for_status = λ status. ok tt;
}

abbrev scanned_message : Delivered
scanned_message = record {
  topic = "ingest.excel.scanned.pass.v1";
  partition = 0;
  offset = 0;
  key = ok none;
  value = some "event";
}

abbrev no_posts : Posts
no_posts = record { ticks = 0; answered = [] }

handled-IsPosted_example :
    (text : String) × (fs : Fields) × (scanned_message.value ≡ some text)
    × (scan_library.loads text ≡ ok (obj fs))
    × IsPosted sample_airflow scan_library fs no_posts
        (process_scanned sample_airflow scan_library scanned_message no_posts).1
unfolding process_scanned prepare_run fetch_api_bearer_token trigger_dag_run
handled-IsPosted_example =
    handled-IsPosted sample_airflow scan_library scanned_message no_posts refl
