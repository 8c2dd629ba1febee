-- ===== src/Excel/Trigger.antt =====
-- services/workers/excel_validation_trigger (trigger.py and the loop of main.py): one run of the
-- validation is asked of Airflow for each upload that the scanner has passed. Airflow's answers are
-- a parameter.
pub mod Runs
use fintech_data_platform.Prelude.{
  ℕ, suc, String, Bool, true, false, ◌||◌, ◌==◌, Option, none, some, List, [], ◌∷◌, eqb,
  if◌then◌else◌,
}
use fintech_data_platform.Prelude.Text.{concat, is_blank}
use fintech_data_platform.Json.{Value, str, obj, Fields, end, dict, get, or_else}
use fintech_data_platform.Library.{Library, dict_or_empty, get_item, item, str_of}
use fintech_data_platform.Exec.{
  Error, ErrorKind, Exec, Result, err, failure, lift, ok, pure, raise_if, ◌>>=◌, ◌>>◌, ◌>>>◌,
}
use fintech_data_platform.Consumer.{Delivered, Outcome}

abbrev pub default_schema_contract_id : String
default_schema_contract_id = "payroll_v1"

-- `build_dag_run_id`
abbrev pub build_dag_run_id : String → String
build_dag_run_id run_id = concat ("excel_validation__" ∷ run_id ∷ [])

-- `build_dag_run_payload`
unfoldable pub build_dag_run_payload : Fields → Result Fields
build_dag_run_payload envelope =
    let payload = or_else (get "payload" envelope) (obj end) in
    item "bucket" payload >>> λ bucket. item "object_key" payload >>> λ object_key.
    get_item "schema_contract_id" payload >>> λ contract_id.
    item "run_id" (obj envelope) >>> λ run_id. item "trace_id" (obj envelope) >>> λ trace_id.
    item "trigger_event_ref" (obj envelope) >>> λ ref. ok (
      dict (
        ("run_id", run_id)
        ∷ ("trace_id", trace_id)
        ∷ ("trigger_event_ref", ref)
        ∷ ("bucket", bucket)
        ∷ ("object_key", object_key)
        ∷ ("schema_contract_id", or_else contract_id (str default_schema_contract_id))
        ∷ []))

-- What Airflow answers at a tick, and what `requests` makes of a status.
pub record Airflow : Type 0 where
  -- `datetime.now(timezone.utc)`, as text
  pub now_text : ℕ → String
  -- the answer to `POST /auth/token`: an error, or the JSON value of a good answer
  pub token : ℕ → Result Value
  -- the answer to `POST .../dagRuns`: an error of the connection, or the status
  pub post_run : ℕ → String → Result ℕ
  -- `Response.raise_for_status`
  pub raise_for_status : ℕ → Result (Unit {0})

-- A request for a run that Airflow has answered.
pub record Post : Type 0 where
  pub dag_run_id : String
  pub logical_date : String
  pub conf : Fields
  pub status : ℕ

pub record Posts : Type 0 where
  pub ticks : ℕ
  -- newest first
  pub answered : List Post

-- `response.status_code in {200, 201, 409}`
abbrev pub is_started : ℕ → Bool
is_started status = eqb status 200 || eqb status 201 || eqb status 409

module _ (airflow : Airflow) where
  abbrev pub date_of : Value → Exec Posts String
  date_of (str s) w =
      if is_blank s
      then (ok (airflow.now_text w.ticks), record w { ticks = suc w.ticks })
      else (ok s, w)
  date_of v w = (ok (airflow.now_text w.ticks), record w { ticks = suc w.ticks })

  -- `build_logical_date`
  unfoldable pub build_logical_date : Fields → Exec Posts String
  unfolding is_blank
  build_logical_date envelope = date_of (get "occurred_at" envelope)

  abbrev pub ask_token : Exec Posts Value
  ask_token w = (airflow.token w.ticks, record w { ticks = suc w.ticks })

  -- `fetch_api_bearer_token`
  unfoldable pub fetch_api_bearer_token : Library → Exec Posts String
  unfolding str_of
  fetch_api_bearer_token lib = do
    answer ← ask_token
    fields ← lift (dict_or_empty answer)
    token ← pure (str_of lib (or_else (get "access_token" fields) (str "")))
    raise_if (token == "")
        (failure ErrorKind.runtime_error "Airflow auth token response missing access_token")
    pure token

  abbrev pub answered_with : String → String → Fields → Result ℕ → Exec Posts Bool
  answered_with dag_run_id logical_date conf (err e) w = (err e, w)
  answered_with dag_run_id logical_date conf (ok status) w = (
    (if is_started status then ok true else airflow.raise_for_status status >>> λ _. ok false),
    record w {
      answered =
          record {
            dag_run_id = dag_run_id;
            logical_date = logical_date;
            conf = conf;
            status = status;
          }
          ∷ w.answered;
    },
  )

  -- `trigger_dag_run`
  unfoldable pub trigger_dag_run : String → String → Fields → Exec Posts Bool
  trigger_dag_run dag_run_id logical_date conf w =
      answered_with dag_run_id logical_date conf (airflow.post_run w.ticks dag_run_id)
        (record w { ticks = suc w.ticks })

  module _ (lib : Library) where
    -- the conf, the date and the id of the run, for an event
    unfoldable pub prepare_run : Fields → Exec Posts (String × String × Fields)
    unfolding build_dag_run_payload build_logical_date str_of
    prepare_run envelope = do
      conf ← lift (build_dag_run_payload envelope)
      logical_date ← build_logical_date envelope
      run_id ← lift (item "run_id" (obj envelope))
      pure (build_dag_run_id (str_of lib run_id), logical_date, conf)

    abbrev pub request_run : String × String × Fields → Exec Posts Bool
    request_run (dag_run_id, logical_date, conf) = do
      token ← fetch_api_bearer_token lib
      trigger_dag_run dag_run_id logical_date conf

    -- The answer of `trigger_dag_run` is not used.
    abbrev pub requested : Result Bool × Posts → Outcome × Posts
    requested (ok started, w) = (Outcome.handled, w)
    requested (err e, w) = (Outcome.failed, w)

    -- `except (json.JSONDecodeError, KeyError, TypeError)`
    abbrev pub malformed : Error → Outcome
    malformed e = elim e.kind [
      | ErrorKind.json_decode_error ↦ Outcome.dropped
      | ErrorKind.key_error ↦ Outcome.dropped
      | ErrorKind.type_error ↦ Outcome.dropped
      | _ ↦ Outcome.crashed
    ]

    abbrev pub prepared : Result (String × String × Fields) × Posts → Outcome × Posts
    prepared (ok run, w) = requested (request_run run w)
    prepared (err e, w) = (malformed e, w)

    -- A value that is no dict has no `get`: that error is not caught.
    abbrev pub scanned_value : Value → Posts → Outcome × Posts
    scanned_value (obj fs) w = prepared (prepare_run fs w)
    scanned_value v w = (Outcome.crashed, w)

    abbrev pub scanned_loaded : Result Value → Posts → Outcome × Posts
    scanned_loaded (ok v) w = scanned_value v w
    scanned_loaded (err e) w = (malformed e, w)

    -- `json.loads(None)` is a `TypeError`.
    abbrev pub scanned_bytes : Option String → Posts → Outcome × Posts
    scanned_bytes none w = (Outcome.dropped, w)
    scanned_bytes (some text) w = scanned_loaded (lib.loads text) w

    -- One message of the loop.
    unfoldable pub process_scanned : Delivered → Posts → Outcome × Posts
    process_scanned m w = scanned_bytes m.value w
