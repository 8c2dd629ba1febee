-- ===== src/Curated/Safety.antt =====
-- What the tasks and the failure callbacks of the curated DAGs keep in the event store.
use fintech_data_platform.Prelude.{ℕ, String}
use fintech_data_platform.Json.{Value, Fields}
use fintech_data_platform.Envelope.{Envelope}
use fintech_data_platform.Exec.{Keeps}
use fintech_data_platform.World.{Env}
use fintech_data_platform.World.Committed.{
  IsStored, StoreIsValid, store_rules, transact-IsStored, worker_rules,
}
use fintech_data_platform.Curated.Specs.{GoldMetricSpec, SilverSpec}
use fintech_data_platform.Curated.Runs.{
  CuratedRun, emit_curated_failure, emit_failure_of, open_run_and_append_started, or_new_uuid,
  record_failed, safe_emit_curated_failure, uuid_or_new,
}
use fintech_data_platform.Curated.Silver.{
  SilverState, emit_silver_failure, open_silver_run, record_silver, record_silver_and_emit,
}
use fintech_data_platform.Curated.Gold.{
  GoldState, emit_gold_failure, open_gold_run, record_gold, record_gold_and_emit,
}
use fintech_data_platform.Curated.Silver
use fintech_data_platform.Curated.Gold

module _ (env : Env) where
  open_run_and_append_started-IsStored :
      (r : CuratedRun) (topic : String) (payload : Fields)
      → Keeps IsStored (open_run_and_append_started env r topic payload)
  unfolding open_run_and_append_started
  open_run_and_append_started-IsStored r topic payload =
      transact-IsStored env _ (search store_rules depth 12)

  record_failed-StoreIsValid :
      (r : CuratedRun) (topic : String) (payload : Fields) (e : Envelope) (place : ℕ × ℕ)
      → Keeps StoreIsValid (record_failed env r topic payload e place)
  record_failed-StoreIsValid r topic payload e (p, n) = search store_rules depth 16

  safe_emit-IsStored :
      (r : CuratedRun) (topic : String) (payload : Fields)
      → Keeps IsStored (safe_emit_curated_failure env r topic payload)
  unfolding safe_emit_curated_failure emit_curated_failure
  safe_emit-IsStored r topic payload =
      search (worker_rules, transact-IsStored, record_failed-StoreIsValid) depth 16

  or_new_uuid-IsStored : (v : Value) → Keeps IsStored (or_new_uuid env v)
  or_new_uuid-IsStored v = search worker_rules depth 12

  uuid_or_new-IsStored : (v : Value) → Keeps IsStored (uuid_or_new env v)
  uuid_or_new-IsStored v = search worker_rules depth 12

  emit_failure_of-IsStored :
      (conf : Fields) (id topic : String) (payload : Fields)
      → Keeps IsStored (emit_failure_of env conf id topic payload)
  unfolding emit_failure_of
  emit_failure_of-IsStored conf id topic payload =
      search (worker_rules, or_new_uuid-IsStored, uuid_or_new-IsStored, safe_emit-IsStored) depth 24

  open_silver_run-IsStored :
      (conf payload : Fields) (spec : SilverSpec)
      → Keeps IsStored (open_silver_run env conf payload spec)
  open_silver_run-IsStored conf payload spec =
      search (worker_rules, or_new_uuid-IsStored, open_run_and_append_started-IsStored) depth 30

  pub open_silver-IsStored : (conf : Fields) → Keeps IsStored (Silver.open_curated_run env conf)
  unfolding Silver.open_curated_run
  open_silver-IsStored conf = search (worker_rules, open_silver_run-IsStored) depth 24

  record_silver-StoreIsValid :
      (bucket : String) (s : SilverState) (e : Envelope) (place : ℕ × ℕ)
      → Keeps StoreIsValid (record_silver env bucket s e place)
  record_silver-StoreIsValid bucket s e (p, n) = search store_rules depth 16

  pub record_silver_and_emit-IsStored :
      (bucket : String) (s : SilverState) → Keeps IsStored (record_silver_and_emit env bucket s)
  unfolding record_silver_and_emit
  record_silver_and_emit-IsStored bucket s =
      search (worker_rules, transact-IsStored, record_silver-StoreIsValid) depth 16

  pub emit_silver_failure-IsStored :
      (conf : Fields) (id : String) → Keeps IsStored (emit_silver_failure env conf id)
  unfolding emit_silver_failure
  emit_silver_failure-IsStored conf id = search (worker_rules, emit_failure_of-IsStored) depth 12

  open_gold_run-IsStored :
      (conf payload : Fields) (domain : String) (spec : GoldMetricSpec)
      → Keeps IsStored (open_gold_run env conf payload domain spec)
  open_gold_run-IsStored conf payload domain spec =
      search (worker_rules, or_new_uuid-IsStored, open_run_and_append_started-IsStored) depth 30

  pub open_gold-IsStored : (conf : Fields) → Keeps IsStored (Gold.open_curated_run env conf)
  unfolding Gold.open_curated_run
  open_gold-IsStored conf = search (worker_rules, open_gold_run-IsStored) depth 24

  record_gold-StoreIsValid :
      (bucket : String) (s : GoldState) (e : Envelope) (place : ℕ × ℕ)
      → Keeps StoreIsValid (record_gold env bucket s e place)
  record_gold-StoreIsValid bucket s e (p, n) = search store_rules depth 16

  pub record_gold_and_emit-IsStored :
      (bucket : String) (s : GoldState) → Keeps IsStored (record_gold_and_emit env bucket s)
  unfolding record_gold_and_emit
  record_gold_and_emit-IsStored bucket s =
      search (worker_rules, transact-IsStored, record_gold-StoreIsValid) depth 16

  pub emit_gold_failure-IsStored :
      (conf : Fields) (id : String) → Keeps IsStored (emit_gold_failure env conf id)
  unfolding emit_gold_failure
  emit_gold_failure-IsStored conf id = search (worker_rules, emit_failure_of-IsStored) depth 12
