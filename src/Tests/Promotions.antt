-- ===== src/Tests/Promotions.antt =====
-- The theorems on the curated layers, at one event and one changed record.
use fintech_data_platform.Prelude.{String, ◌≡◌, ◌≤◌, refl, true, false, none, some, [], ◌∷◌, arith}
use Prim.Native.String.{◌++◌}
use fintech_data_platform.Exec.{ok}
use fintech_data_platform.Json.{str, obj, Fields, dict, end}
use fintech_data_platform.Library.{Library, str_of}
use fintech_data_platform.Consumer.{Delivered}
use fintech_data_platform.Curated.Specs.{resolve_silver_spec}
use fintech_data_platform.Curated.Listeners.{
  TriggerEvent, apply_bronze_event, parse_event_envelope, silver_conf,
}
use fintech_data_platform.Curated.Listeners.Conf.{CarriesSpec, silver_run_of_event}
use fintech_data_platform.Curated.Runs.{emit_failure_of}
use fintech_data_platform.Curated.Runs.Failures.{failure_is_unrecorded}
use fintech_data_platform.Curated.Literals.{sql_string_literal}
use fintech_data_platform.Curated.Literals.Reading.{read_literal, sql_string_literal_lem}
use fintech_data_platform.Curated.Merge.{Account, Source, Version, account_changed, merge}
use fintech_data_platform.Curated.Merge.Versions.{changed_key_is_lost, current, merge-current}
use fintech_data_platform.Tests.Sample.{sample_env, sample_library, seeded}

abbrev bronze_envelope : Fields
bronze_envelope = dict (
    ("event_type", str "cdc.oltp.bronze.ready.v1")
    ∷ ("run_id", str "r-1")
    ∷ ("payload", obj (dict (("stage", str "bronze") ∷ ("source_table", str "trading.loan") ∷ [])))
    ∷ [])

abbrev event_library : Library
event_library = record sample_library { loads = λ text. ok (obj bronze_envelope) }

abbrev bronze_message : Delivered
bronze_message = record {
  topic = "cdc.oltp.bronze.ready.v1";
  partition = 0;
  offset = 7;
  key = ok none;
  value = some "event";
}

abbrev loan_run : TriggerEvent
loan_run = record {
  trigger_run_id = "silver_curated_promotion__r-1";
  conf =
      silver_conf event_library bronze_message
        (record {
          domain = "loan";
          output_table = "lakehouse.silver.dim_loan";
          transform_id = "silver_curated_promotion_dim_loan";
        })
        bronze_envelope;
}

silver_run_of_event_example :
    (envelope : Fields) × (parse_event_envelope event_library bronze_message ≡ some envelope)
    × CarriesSpec event_library bronze_message envelope loan_run.conf
unfolding apply_bronze_event parse_event_envelope resolve_silver_spec str_of
silver_run_of_event_example = silver_run_of_event event_library bronze_message loan_run refl

abbrev failed_conf : Fields
failed_conf = dict (("run_id", str "r-1") ∷ ("trace_id", str "t-1") ∷ [])

failure_is_unrecorded_example :
    (emit_failure_of sample_env failed_conf "dag" "pipeline.silver.failed.v1" end seeded).1.store
    ≡ seeded.store
failure_is_unrecorded_example =
    failure_is_unrecorded sample_env "pipeline.silver.failed.v1" end failed_conf "dag" seeded refl
      (λ id q. refl)

sql_string_literal_lem_example :
    (body : String) × (sql_string_literal sample_library (str "O'Hara") ++ ", TRUE"
      ≡ String.◌∷◌ "'" body)
    × (read_literal false body ≡ some ("O'Hara", ", TRUE"))
sql_string_literal_lem_example = sql_string_literal_lem sample_library "O'Hara" ", TRUE" refl

abbrev named : String → Account
named name = record {
  name = some name;
  industry = none;
  annual_revenue = none;
  number_of_employees = none;
}

abbrev renamed : Source Account
renamed = record { key = "a"; columns = named "New"; modified = 8 }

abbrev old_version : Version Account
old_version = record {
  key = "a";
  columns = named "Old";
  valid_from = 3;
  valid_to = none;
  is_current = true;
}

abbrev closed_version : Version Account
closed_version = record old_version { valid_to = some 8; is_current = false }

merge-current_example : current account_changed "a" (closed_version ∷ []) ≤ 1
unfolding merge
merge-current_example =
    merge-current account_changed "a" (renamed ∷ []) (old_version ∷ []) (closed_version ∷ []) refl
      (omega arith) (omega arith)

changed_key_is_lost_example : current account_changed "a" (closed_version ∷ []) ≡ 0
unfolding merge
changed_key_is_lost_example =
    changed_key_is_lost account_changed "a" renamed (renamed ∷ []) (old_version ∷ [])
      (closed_version ∷ []) refl refl (omega arith) ((λ q. refl), tt)
