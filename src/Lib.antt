-- ===== src/Lib.antt =====
-- The fintech data platform: the workers that carry changes of the trading database and uploaded
-- spreadsheets through the broker into the bronze layer, and the event store that records every run
-- of theirs, and on from the bronze layer to the curated ones.
--
-- Parts, and how they interact. Debezium writes the changes of the trading database to the topic
-- cdc.oltp.raw.v1. The fraud worker scores a change, writes its risk flag to the trading database
-- and an assessed event to the broker. The bronze writer gathers assessed events into objects of
-- the object store and writes an event for each object. The scanner takes the object store's
-- notifications of uploads and writes a verdict; the trigger starts a validation of an upload that
-- passed, whose tasks write it to the raw layer or to quarantine, and the Excel writer takes it on
-- to the bronze layer. The pull reads records of Salesforce, page by page, and the Salesforce
-- writer takes them on to the bronze layer. The listeners start a promotion for each event of the
-- bronze layer, which merges its rows into the silver tables, and an aggregation for each event of
-- a promotion. Each of them records its runs, events, alerts and checkpoints in the event store, in
-- transactions of its own.
--
-- Files:
--   EventStore: services/libs/event_store/event_store.py. `Db` is the tables of
--     infra/db/event-store-migrations; an operation is the method of `PgEventStore` of its name,
--     which raises where a constraint of the table is violated. Tables, Runs, Events and
--     Checkpoints hold the definitions, Invariant, Idempotence, Positions and Cursor the theorems.
--   Envelope: services/libs/redpanda_events/envelope.py, the types and the validators.
--   World: what the workers share. `build` is `Envelope.build`, `produce` is
--     `EventProducer.produce` (services/libs/redpanda_events/producer.py), `transact` is a
--     transaction on a connection of services/libs/event_store/runtime.py, with the deferred
--     trigger at its commit. World/Committed is what every transaction leaves, World/Rest what it
--     does not touch, World/Published the message, the event and the end of a run.
--   Fraud: services/workers/fraud_worker. Scorer is scorer.py, Raw and Handler are handler.py,
--     Loop is main.py.
--   Scanner: services/workers/excel_scanner. Upload, Gates and Handler are scanner.py, Loop is
--     main.py.
--   Bronze: services/workers/cdc_bronze_writer. Row, Flush and Batches are writer.py, Publish and
--     Loop are main.py; Sorting, Grouping, Offsets, Safety, Recorded, Passed
--     and Losses hold theorems.
--   Consumer: the loop that the fraud worker, the scanner, the trigger and the writers of Ready share,
--     over the log of one partition.
--   Lake: services/libs/minio_store/minio_object_store.py.
--   Excel: services/libs/excel_validation (Contract, Verdict), services/workers/
--     excel_validation_trigger (Trigger) and services/pipeline/excel_validation (Tasks, Emit and
--     Route; `validate_upload` is the DAG).
--   Ready: services/workers/excel_bronze_writer and salesforce_bronze_writer. Excel, Salesforce,
--     Uris and Columns are the two writer.py, Loop is the two main.py.
--   Salesforce: services/pipeline/salesforce_pull (Pull, and `pull_pages` of Pages), and
--     services/workers/salesforce-mock-api (Corpus is corpus.py, `build_page` of main.py).
--   Curated: services/pipeline/curated_specs.py (Specs), curated_dag_helpers.py (Listeners, Runs),
--     curated_sql_helpers.py (Literals), silver_curated and gold_curated (Listeners, Silver, Gold;
--     Rows is the rows of stage_and_mask_bronze.py, Merge the statements of merge_into_silver.py, by
--     what they do to the rows of a table).
--   System: all of them on one world, as a relation between the worlds before and after a call.
--   Masking: services/libs/masking/masking.py, with the keyed hash as a parameter.
--   Decimal: Python's `Decimal` with its context of 28 digits, as far as the scorer uses it.
--   Json, Library: the values of `json.loads`, and the functions of Python's standard library that
--     read and print them, as a record of parameters.
--   Exec: methods that change state and may raise. Prelude: numbers, lists and texts.
--   Tests: runs at concrete inputs.
--
-- The outside. `Env` gives the ids, the times, the hash of a payload, the partition of a key and
-- the outcome of every call to a service: it works, it is lost, or it happens and the caller sees a
-- failure. The object store's and clamd's answers, pandas, pyarrow's bytes, the contract files and
-- the answers of Airflow and of Salesforce are functions. Nothing is assumed of any of them, so the
-- invariants hold for every order of failures. Other connections' transactions do not run between
-- two steps of a message: what the unique indexes guarantee across processes is in the constraints
-- of the store. A commit of an offset is taken to work.
--
-- Bounds. Loops over lists are structural. `show` has as much fuel as the number plus one, and a
-- number has no more digits; `Decimal.digits` has as much fuel as its number. A worker's loop is a
-- run over a list of turns, for every list. `pull_pages` has one unit of fuel more than the table
-- has records, and every round but the last takes a record off.
--
-- Not modelled: the inserts into the fact tables and the aggregations, which are texts of SQL; the
-- staging of a list of objects; the parser of queries and the tokens of the mock API; retries of a
-- task by Airflow; the ui api and the user interface, which only read; the load generator; and the
-- reading of settings. A MERGE is taken as SQL has it, on keys that are not NULL. Texts stand for
-- bytes; floats stand by the decimal number that they are the nearest of; logging is left out.
pub mod Prelude
pub mod Exec
pub mod Decimal
pub mod Json
pub mod Library
pub mod Envelope
pub mod EventStore
pub mod World
pub mod Lake
pub mod Consumer
pub mod Fraud
pub mod Scanner
pub mod Bronze
pub mod Ready
pub mod Excel
pub mod Salesforce
pub mod Curated
pub mod System
pub mod Masking
pub mod Tests
