-- ===== src/Bronze/Safety.antt =====
-- What a flush of the bronze writer keeps, however the outside services fail.
use fintech_data_platform.Prelude.{ℕ, String, List, [], ◌∷◌}
use fintech_data_platform.Json.{Value}
use fintech_data_platform.Envelope.{Envelope}
use fintech_data_platform.Exec.{Error, Keeps, Keeps-bind, keeps_rules}
use fintech_data_platform.World.{Env}
use fintech_data_platform.World.Committed.{IsStored, store_rules, worker_rules, transact-IsStored}
use fintech_data_platform.Lake.{write_uri-IsStored}
use fintech_data_platform.Bronze.Row.{AssessedRecord, BatchRow}
use fintech_data_platform.Bronze.Flush.{Table, FlushResult}
use fintech_data_platform.Bronze.Batches.{
  Writer, PreparedBatch, write_batch, write_table, write_tables, write_batches,
}
use fintech_data_platform.Bronze.Publish.{
  prepare_batch_run, finalize_published_batch, mark_batch_failed, publish_batch, publish_batches,
  flush_records,
}

module _ (env : Env) (writer : Writer) where
  write_batch-IsStored :
      (moment : ℕ) (table : Value) (first : BatchRow) (rest : List BatchRow)
      → Keeps IsStored (write_batch env writer moment table first rest)
  unfolding write_batch
  write_batch-IsStored moment table first rest = search (worker_rules, write_uri-IsStored) depth 16

  write_table-IsStored :
      (moment : ℕ) (table : Value) (rows : List BatchRow)
      → Keeps IsStored (write_table env writer moment table rows)
  write_table-IsStored moment table [] = search keeps_rules
  write_table-IsStored moment table (r ∷ rs) = write_batch-IsStored moment table r rs

  write_tables-IsStored :
      (moment : ℕ) (ts : List Table) → Keeps IsStored (write_tables env writer moment ts)
  unfolding write_tables
  write_tables-IsStored moment [] = search keeps_rules
  write_tables-IsStored moment (t ∷ ts) =
      Keeps-bind (write_table env writer moment t.source_table t.rows) _
        (write_table-IsStored moment t.source_table t.rows)
        (λ batch. search (keeps_rules, write_tables-IsStored moment ts))

  write_batches-IsStored : (flush : FlushResult) → Keeps IsStored (write_batches env writer flush)
  unfolding write_batches
  write_batches-IsStored flush = search (worker_rules, write_tables-IsStored) depth 8

module _ (env : Env) where
  prepare-IsStored : (b : PreparedBatch) → Keeps IsStored (prepare_batch_run env b)
  unfolding prepare_batch_run
  prepare-IsStored b = transact-IsStored env _ (search store_rules depth 12)

  finalize-IsStored :
      (b : PreparedBatch) (run_id : String) (e : Envelope) (place : ℕ × ℕ)
      → Keeps IsStored (finalize_published_batch env b run_id e place)
  unfolding finalize_published_batch
  finalize-IsStored b run_id e place = transact-IsStored env _ (search store_rules depth 14)

  mark-IsStored :
      (b : PreparedBatch) (run_id : String) (e : Error)
      → Keeps IsStored (mark_batch_failed env b run_id e)
  unfolding mark_batch_failed
  mark-IsStored b run_id e = transact-IsStored env _ (search store_rules depth 12)

  publish-IsStored : (b : PreparedBatch) → Keeps IsStored (publish_batch env b)
  unfolding publish_batch
  publish-IsStored b =
      search (worker_rules, prepare-IsStored, finalize-IsStored, mark-IsStored) depth 24

  publish_batches-IsStored : (bs : List PreparedBatch) → Keeps IsStored (publish_batches env bs)
  unfolding publish_batches
  publish_batches-IsStored [] = search keeps_rules
  publish_batches-IsStored (b ∷ bs) =
      Keeps-bind (publish_batch env b) _ (publish-IsStored b) (λ _. publish_batches-IsStored bs)

-- Whatever the records of a batch, the ids and times drawn, pyarrow's answers and the failures of
-- the outside services, and however far the flush comes, it leaves the event store well formed,
-- with an event for every run.
pub flush_records-IsStored :
    (env : Env) (writer : Writer) (records : List AssessedRecord)
    → Keeps IsStored (flush_records env writer records)
unfolding flush_records
flush_records-IsStored env writer records =
    search (keeps_rules, write_batches-IsStored, publish_batches-IsStored) depth 8
