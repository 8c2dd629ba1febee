-- ===== src/World.antt =====
-- What the workers share: the event store, the trading database, the object store and the broker,
-- with everything that the outside decides. Ids (`uuid4`), times (`datetime.now`) and faults come
-- from `Env`, one for each tick; nothing is assumed of them here.
-- event_store/runtime.py (`open_event_store_conn`), redpanda_events/producer.py
-- (`EventProducer.produce`) and `Envelope.build`.
pub mod Committed
pub mod Rest
pub mod Published
use fintech_data_platform.Prelude.{
  ℕ, suc, ◌+◌, String, Bool, true, false, ◌&&◌, ◌==◌, Option, none, some, List, [], ◌∷◌, count,
  if◌then◌else◌, eqb,
}
use fintech_data_platform.Json.{Fields}
use fintech_data_platform.Library.{Library, Time, aware, naive}
use fintech_data_platform.Envelope.{
  Envelope, EventSource, PipelineClass, PipelineName, schema_version, non_empty_ref,
  well_formed_hash,
}
use fintech_data_platform.Exec.{
  Exec, Error, Result, ok, err, failure, ErrorKind, pure, lift, ◌>>=◌, ◌>>◌,
}
use fintech_data_platform.EventStore.{Db, empty_db, trigger_passes, violation}

-- How a call to an outside service ends: it works; it fails and nothing has happened; or it has
-- happened and the caller sees a failure.
pub data Fault : Type 0 where
  fine lost unacked : Fault

pub record Env : Type 0 where
  pub uuid : ℕ → String
  pub time : ℕ → ℕ
  pub fault : ℕ → Fault
  -- `canonical_payload_hash`
  pub hash : Fields → String
  -- the partition that the broker's client chooses for a topic and a key
  pub partition : String → String → ℕ
  -- what the object store answers, at a tick, for the bytes of an object: a bucket and a key
  pub get_object : ℕ → String → String → Result String
  -- the standard library's reading and printing of values
  pub library : Library

pub record Message : Type 0 where
  pub topic : String
  pub key : String
  pub value : Envelope
  pub partition : ℕ
  pub offset : ℕ

-- A row of `trading.risk_flag`; the score is in units of 0.0001.
pub record RiskFlag : Type 0 where
  pub transaction_id : String
  pub event_id : String
  pub risk_score : ℕ
  pub risk_flags : List String
  pub raw_topic : String
  pub raw_partition : ℕ
  pub raw_offset : ℕ

pub record World : Type 0 where
  pub ticks : ℕ
  pub store : Db
  -- the ids of `trading.transaction`
  pub transactions : List String
  pub risk_flags : List RiskFlag
  -- the object store: a URI with the text that stands for what was written there
  pub objects : List (String × String)
  -- the broker's log, newest first
  pub messages : List Message

abbrev pub start : World
start = record {
  ticks = 0;
  store = empty_db;
  transactions = [];
  risk_flags = [];
  objects = [];
  messages = [];
}

abbrev pub tick : World → World
tick w = record w { ticks = suc w.ticks }

abbrev pub external : String → Error
external = failure ErrorKind.external_error

-- An operation of `PgEventStore` inside a transaction.
abbrev pub on_store : {A : Type 0} → Exec Db A → Exec World A
on_store m w = let (r, db) = m w.store in (r, record w { store = db })

-- Where in the log of its topic and partition the next message goes.
abbrev pub next_offset : String → ℕ → List Message → ℕ
next_offset topic partition = count (λ (m : Message). m.topic == topic && eqb m.partition partition)

-- The arguments of `Envelope.build`.
pub record Draft : Type 0 where
  pub event_id : Option String
  pub event_type : String
  pub source : EventSource
  pub run_id : String
  pub pipeline_class : PipelineClass
  pub pipeline_name : PipelineName
  pub parent_run_id : Option String
  pub trigger_event_ref : String
  pub trace_id : String
  pub occurred_at : Option Time
  pub payload : Fields

module _ (env : Env) where
  -- `uuid4()`
  unfoldable pub draw_uuid : Exec World String
  draw_uuid w = (ok (env.uuid w.ticks), tick w)

  -- `datetime.now(timezone.utc)`
  unfoldable pub draw_time : Exec World ℕ
  draw_time w = (ok (env.time w.ticks), tick w)

  abbrev pub or_draw_uuid : Option String → Exec World String
  or_draw_uuid none = draw_uuid
  or_draw_uuid (some id) = pure id

  abbrev pub or_draw_time : Option Time → Exec World Time
  or_draw_time none = do now ← draw_time; pure (aware now)
  or_draw_time (some t) = pure t

  -- `_require_tz`
  abbrev pub require_tz : Time → Result ℕ
  require_tz (aware t) = ok t
  require_tz (naive t) =
      err (failure ErrorKind.value_error "occurred_at must be timezone-aware (UTC expected)")

  abbrev pub envelope_of : Draft → String → ℕ → Envelope
  envelope_of d event_id occurred_at = record {
    event_id = event_id;
    event_type = d.event_type;
    source = d.source;
    run_id = d.run_id;
    pipeline_class = d.pipeline_class;
    pipeline_name = d.pipeline_name;
    parent_run_id = d.parent_run_id;
    trigger_event_ref = d.trigger_event_ref;
    trace_id = d.trace_id;
    occurred_at = occurred_at;
    version = schema_version;
    payload_hash = env.hash d.payload;
    payload = d.payload;
  }

  -- `Envelope.build`, with the validators in the order of the fields
  unfoldable pub build : Draft → Exec World Envelope
  unfolding draw_uuid draw_time non_empty_ref well_formed_hash
  build d = do
    event_id ← or_draw_uuid d.event_id
    occurred_at ← or_draw_time d.occurred_at
    ref ← lift (non_empty_ref d.trigger_event_ref)
    instant ← lift (require_tz occurred_at)
    digest ← lift (well_formed_hash (env.hash d.payload))
    pure (envelope_of d event_id instant)

  abbrev pub sent : String → String → Envelope → World → World
  sent topic key envelope w =
      let partition = env.partition topic key in
      record w {
        messages =
            record {
              topic = topic;
              key = key;
              value = envelope;
              partition = partition;
              offset = next_offset topic partition w.messages;
            }
            ∷ w.messages;
      }

  abbrev pub delivered : Fault → String → String → Envelope → Exec World (ℕ × ℕ)
  delivered Fault.fine topic key envelope w =
      let partition = env.partition topic key in
      (ok (partition, next_offset topic partition w.messages), sent topic key envelope w)
  delivered Fault.lost topic key envelope w = (err (external "Redpanda produce failed"), w)
  delivered Fault.unacked topic key envelope w =
      (err (external "Redpanda flush left messages undelivered"), sent topic key envelope w)

  -- `EventProducer.produce`
  unfoldable pub produce : String → Envelope → String → Exec World (ℕ × ℕ)
  produce topic envelope key w = delivered (env.fault w.ticks) topic key envelope (tick w)

  abbrev pub begun : World → World
  begun w = record w { store = record w.store { inserted = []; now = env.time w.ticks } }

  module _ {A : Type 0} where
    abbrev pub answer : Fault → A → Result A
    answer Fault.unacked a = err (external "connection lost")
    answer f a = ok a

    -- The commit runs the deferred trigger. After an error the transaction is rolled back: the
    -- store is as it was, and what the body did elsewhere stays.
    abbrev pub commit : Fault → Db → Result A → World → Result A × World
    commit f before (err e) w = (err e, record w { store = before })
    commit f before (ok a) w =
        if trigger_passes w.store
        then (answer f a, w)
        else (err (violation "pipeline_run_requires_event"), record w { store = before })

    abbrev pub in_transaction : Fault → Exec World A → Exec World A
    in_transaction Fault.lost body w = (err (external "connection failed"), w)
    in_transaction f body w = let (r, w') = body (begun w) in commit f w.store r w'

    -- `with connection_factory() as db: with db.begin(): body`
    unfoldable pub transact : Exec World A → Exec World A
    transact body w = in_transaction (env.fault w.ticks) body (tick w)
