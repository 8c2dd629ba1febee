-- ===== src/Excel/Safety.antt =====
-- What the validation of an upload keeps in the event store, and what it can leave in a log.
use fintech_data_platform.Prelude.{ℕ, String}
use fintech_data_platform.Json.{Fields}
use fintech_data_platform.Envelope.{Envelope}
use fintech_data_platform.Exec.{Keeps}
use fintech_data_platform.World.{Env}
use fintech_data_platform.World.Committed.{
  IsStored, StoreIsValid, store_rules, transact-IsStored, worker_rules,
}
use fintech_data_platform.Lake.{copy_object-IsStored, get_object-IsStored}
use fintech_data_platform.Excel.Tasks.{
  Validation, copy_to, download_object, write_quarantine, write_raw,
}
use fintech_data_platform.Excel.Emit.{
  Outcome, emit_event, publish_outcome, quarantine_run, record_outcome, validate_upload,
  write_branch,
}

module _ (env : Env) where
  quarantine_run-StoreIsValid : (o : Outcome) → Keeps StoreIsValid (quarantine_run env o)
  quarantine_run-StoreIsValid o = search store_rules depth 12

  record_outcome-StoreIsValid :
      (o : Outcome) (e : Envelope) (place : ℕ × ℕ)
      → Keeps StoreIsValid (record_outcome env o e place)
  record_outcome-StoreIsValid o e (p, n) =
      search (store_rules, quarantine_run-StoreIsValid) depth 12

  publish_outcome-IsStored : (o : Outcome) → Keeps IsStored (publish_outcome env o)
  unfolding publish_outcome
  publish_outcome-IsStored o =
      search (worker_rules, transact-IsStored, record_outcome-StoreIsValid) depth 16

  emit_event-IsStored : (fs : Fields) → Keeps IsStored (emit_event env fs)
  unfolding emit_event
  emit_event-IsStored fs = search (worker_rules, publish_outcome-IsStored) depth 12

  copy_to-IsStored :
      (prefix stage : String) (fs : Fields) → Keeps IsStored (copy_to env prefix stage fs)
  copy_to-IsStored prefix stage fs = search (worker_rules, copy_object-IsStored) depth 24

  write_branch-IsStored :
      (branch : String) (fs : Fields) → Keeps IsStored (write_branch env branch fs)
  unfolding write_raw write_quarantine
  write_branch-IsStored branch fs = search (worker_rules, copy_to-IsStored) depth 12

  download_object-IsStored :
      (v : Validation) (fs : Fields) → Keeps IsStored (download_object env v fs)
  unfolding download_object
  download_object-IsStored v fs = search (worker_rules, get_object-IsStored) depth 16

  -- Whatever the conf of the run, the object, the contract, the table and the failures of the
  -- services, a passage through the tasks of the validation leaves the event store well formed,
  -- with an event for every run.
  pub validate_upload-IsStored :
      (v : Validation) (conf : Fields) → Keeps IsStored (validate_upload env v conf)
  unfolding validate_upload
  validate_upload-IsStored v conf =
      search (worker_rules, download_object-IsStored, write_branch-IsStored, emit_event-IsStored)
        depth 16
