-- ===== src/Salesforce/Safety.antt =====
-- What a pull keeps in the event store.
use fintech_data_platform.Prelude.{ℕ, String, Option, none, some, List}
use fintech_data_platform.Json.{Value, Items, nil, cons}
use fintech_data_platform.Envelope.{Envelope}
use fintech_data_platform.Exec.{Error, Keeps, Keeps-bind, Keeps-pure}
use fintech_data_platform.EventStore.Invariant.{latest_sf_cursor-IsValid}
use fintech_data_platform.World.{Env, draw_time}
use fintech_data_platform.World.Committed.{
  IsStored, StoreIsValid, draw_time-IsStored, store_rules, transact-IsStored, worker_rules,
}
use fintech_data_platform.Lake.{put_object-IsStored}
use fintech_data_platform.Salesforce.Pull.{
  Api, Pull, fail_pull, fields_of, land_pull, land_records, latest_cursor, open_pull_run,
  pull_fields, pull_sobject, record_raw_ready, unpublished, write_pages, ask_pages,
}

module _ (env : Env) (api : Api) where
  fail_pull-StoreIsValid :
      (p : Pull) (run_id : String) (e : Error) → Keeps StoreIsValid (fail_pull env api p run_id e)
  fail_pull-StoreIsValid p run_id e = search store_rules depth 12

  unpublished-IsStored :
      (p : Pull) (run_id : String) (e : Error) → Keeps IsStored (unpublished env api p run_id e)
  unpublished-IsStored p run_id e =
      search (worker_rules, transact-IsStored, fail_pull-StoreIsValid) depth 12

  latest_cursor-IsStored : (sobject : String) → Keeps IsStored (latest_cursor env api sobject)
  unfolding latest_cursor
  latest_cursor-IsStored sobject =
      transact-IsStored env _ (search (store_rules, latest_sf_cursor-IsValid) depth 12)

  open_pull_run-IsStored :
      (p : Pull) (run_id : String) → Keeps IsStored (open_pull_run env api p run_id)
  unfolding open_pull_run
  open_pull_run-IsStored p run_id = transact-IsStored env _ (search store_rules depth 12)

  record_raw_ready-StoreIsValid :
      (e : Envelope) (place : ℕ × ℕ) → Keeps StoreIsValid (record_raw_ready env api e place)
  record_raw_ready-StoreIsValid e (p, n) = search store_rules depth 12

  write_pages-IsStored :
      (sobject run_id : String) (idx : ℕ) (pages : Items)
      → Keeps IsStored (write_pages env api sobject run_id idx pages)
  unfolding write_pages
  write_pages-IsStored sobject run_id idx nil = Keeps-pure _
  write_pages-IsStored sobject run_id idx (cons page pages) =
      Keeps-bind (draw_time env) _ (draw_time-IsStored env) (λ now.
        Keeps-bind _ _ (put_object-IsStored env _ _) (λ put.
          Keeps-bind _ _ (write_pages-IsStored sobject run_id _ pages) (λ uris. Keeps-pure _)))

  land_pull-IsStored :
      (p : Pull) (last : Value) (run_id : String) → Keeps IsStored (land_pull env api p last run_id)
  unfolding land_pull
  land_pull-IsStored p last run_id =
      search
        (
          worker_rules, write_pages-IsStored, unpublished-IsStored, transact-IsStored,
          record_raw_ready-StoreIsValid,
        )
        depth 24

  land_records-IsStored :
      (sobject : String) (fields : List String) (ref : String) (since : Option ℕ)
      (pages records : Items)
      → Keeps IsStored (land_records env api sobject fields ref since pages records)
  land_records-IsStored sobject fields ref since pages nil = Keeps-pure 0
  land_records-IsStored sobject fields ref since pages (cons r rs) =
      search (worker_rules, open_pull_run-IsStored, land_pull-IsStored) depth 24

  ask_pages-IsStored : (soql : String) → Keeps IsStored (ask_pages env api soql)
  ask_pages-IsStored soql = record { at = λ w h. h }

  pull_fields-IsStored :
      (sobject logical_ts : String) (fields : Option (List String))
      → Keeps IsStored (pull_fields env api sobject logical_ts fields)
  pull_fields-IsStored sobject logical_ts none = search worker_rules
  pull_fields-IsStored sobject logical_ts (some fields) =
      search (worker_rules, latest_cursor-IsStored, ask_pages-IsStored, land_records-IsStored) depth
        24

  -- Whatever the API answers, the clock and the failures of the services, a pull leaves the event
  -- store well formed, with an event for every run.
  pub pull_sobject-IsStored :
      (sobject logical_ts : String) → Keeps IsStored (pull_sobject env api sobject logical_ts)
  unfolding pull_sobject
  pull_sobject-IsStored sobject logical_ts =
      pull_fields-IsStored sobject logical_ts (fields_of sobject)
