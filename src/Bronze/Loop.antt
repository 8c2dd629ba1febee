-- ===== src/Bronze/Loop.antt =====
-- services/workers/cdc_bronze_writer/main.py: `run`, the loop that gathers messages into a batch and
-- flushes it when it is full or old.
use fintech_data_platform.Prelude.{
  ℕ, suc, String, Bool, false, ◌||◌, Option, none, some, List, [], ◌∷◌, ◌++◌, leb, length,
  if◌then◌else◌,
}
use fintech_data_platform.Json.{Value}
use fintech_data_platform.Exec.{ErrorKind, Result, ok, err}
use fintech_data_platform.World.{World, Env}
use fintech_data_platform.Consumer.{Delivered, message_at}
use fintech_data_platform.Bronze.Row.{AssessedRecord}
use fintech_data_platform.Bronze.Batches.{Writer}
use fintech_data_platform.Bronze.Publish.{flush_records}

-- A poll that returns the next message, or one that times out, with whether the batch is
-- `max_seconds` old by then; or the end of the session and the start of the next.
pub data Turn : Type 0 where
  poll : Bool → Turn
  timeout : Bool → Turn
  restart : Turn

pub record BatchSession : Type 0 where
  pub position : ℕ
  pub committed : ℕ
  -- the gathered records, oldest first; the last one's offset is that of `pending_msgs[-1]`
  pub pending : List AssessedRecord
  pub world : World

-- A new session starts at the committed offset with no batch.
abbrev pub restarted : BatchSession → BatchSession
restarted s = record s { position = s.committed; pending = [] }

-- `commit(message=m)` of the message at the position, which the poll has moved past it
abbrev pub commit_polled : BatchSession → BatchSession
commit_polled s = record s { position = suc s.position; committed = suc s.position }

abbrev pub gather : BatchSession → Delivered → Value → BatchSession
gather s m v = record s {
  position = suc s.position;
  pending =
      s.pending
      ++ (record {
        envelope = v;
        kafka_topic = m.topic;
        kafka_partition = m.partition;
        kafka_offset = s.position;
      }
          ∷ []);
}

-- Only `JSONDecodeError` is caught.
abbrev pub on_undecoded : ErrorKind → BatchSession → BatchSession
on_undecoded ErrorKind.json_decode_error s = commit_polled s
on_undecoded _ s = restarted s

-- Where a flush that has worked leaves the committed offset.
abbrev pub committed_after : ℕ → List AssessedRecord → ℕ
committed_after committed [] = committed
committed_after committed (r ∷ rs) = committed_after (suc r.kafka_offset) rs

module _ (env : Env) (writer : Writer) (max_records : ℕ) where
  abbrev pub receive_loaded : BatchSession → Delivered → Result Value → BatchSession
  receive_loaded s m (ok v) = gather s m v
  receive_loaded s m (err e) = on_undecoded e.kind s

  abbrev pub receive_value : BatchSession → Delivered → Option String → BatchSession
  receive_value s m none = commit_polled s
  receive_value s m (some text) = receive_loaded s m (env.library.loads text)

  abbrev pub receive : BatchSession → Option Delivered → BatchSession
  receive s none = s
  receive s (some m) = receive_value s m m.value

  abbrev pub flushed : BatchSession → Result (Unit {0}) × World → BatchSession
  flushed s (ok done, w) = record {
    position = s.position;
    committed = committed_after s.committed s.pending;
    pending = [];
    world = w;
  }
  flushed s (err e, w) = record s { pending = []; world = w }

  abbrev pub is_due : Bool → List AssessedRecord → Bool
  is_due old [] = false
  is_due old (r ∷ rs) = leb max_records (length (r ∷ rs)) || old

  abbrev pub flush_if_due : Bool → BatchSession → BatchSession
  flush_if_due old s =
      if is_due old s.pending then flushed s (flush_records env writer s.pending s.world) else s

  -- One turn of the loop over the log of a partition.
  unfoldable pub batch_turn : List Delivered → Turn → BatchSession → BatchSession
  batch_turn log (poll old) s = flush_if_due old (receive s (message_at log s.position))
  batch_turn log (timeout old) s = flush_if_due old s
  batch_turn log restart s = restarted s

  unfoldable pub batch_run : List Delivered → List Turn → BatchSession → BatchSession
  batch_run log [] s = s
  batch_run log (t ∷ ts) s = batch_run log ts (batch_turn log t s)
