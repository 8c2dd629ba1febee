-- ===== src/Salesforce/Pull.antt =====
-- services/pipeline/salesforce_pull: `pull_sobject` with `_build_soql`, `_latest_cursor` and
-- `_write_pages_to_minio`. The answers of the API are a parameter.
use fintech_data_platform.Prelude.{
  ℕ, suc, String, Bool, ◌==◌, Option, none, some, List, [], ◌∷◌, if◌then◌else◌,
}
use fintech_data_platform.Prelude.Int.{pos, negsuc}
use fintech_data_platform.Prelude.Text.{concat, four_digits, show}
use fintech_data_platform.Json.{
  Value, null, int, str, arr, obj, Items, nil, cons, Fields, dict, lookup, strings,
}
use fintech_data_platform.Library.{Library, item}
use fintech_data_platform.Envelope.{Envelope, EventSource, PipelineClass, PipelineName}
use fintech_data_platform.Exec.{
  Error, ErrorKind, Exec, Result, err, failure, handled, lift, ok, pure, raise, ◌>>=◌, ◌>>◌, ◌>>>◌,
}
use fintech_data_platform.EventStore.{
  append_event, close_run, latest_sf_cursor, open_run, raise_alert,
}
use fintech_data_platform.World.{
  Draft, Env, World, build, draw_time, draw_uuid, on_store, produce, tick, transact,
}
use fintech_data_platform.Lake.{put_object, run_folder}
use fintech_data_platform.Ready.Salesforce.{append_items}

abbrev pub topic_pull_started : String
topic_pull_started = "ingest.sf.pull.started.v1"

abbrev pub topic_salesforce_raw_ready : String
topic_salesforce_raw_ready = "ingest.salesforce.raw.ready.v1"

-- `SOBJECT_FIELDS`
abbrev pub fields_of : String → Option (List String)
fields_of sobject =
    if sobject == "Account"
    then some
        ("Id" ∷ "Name" ∷ "Industry" ∷ "AnnualRevenue" ∷ "NumberOfEmployees" ∷ "SystemModstamp" ∷ [])
    else if sobject == "Contact"
    then some
        ("Id" ∷ "FirstName" ∷ "LastName" ∷ "Email" ∷ "AccountId" ∷ "Title" ∷ "SystemModstamp" ∷ [])
    else if sobject == "Opportunity"
    then some
        ("Id" ∷ "Name" ∷ "AccountId" ∷ "StageName" ∷ "Amount" ∷ "CloseDate" ∷ "SystemModstamp" ∷ [])
    else none

-- `", ".join(fields)`
abbrev pub comma_separated : List String → String
comma_separated [] = ""
comma_separated (s ∷ []) = s
comma_separated (s ∷ t ∷ ss) = concat (s ∷ ", " ∷ comma_separated (t ∷ ss) ∷ [])

abbrev where_clause : Library → Option ℕ → String
where_clause lib none = ""
where_clause lib (some since) = concat (" WHERE SystemModstamp > " ∷ lib.isoformat since ∷ [])

-- `_build_soql`
unfoldable pub build_soql : Library → String → List String → Option ℕ → ℕ → String
unfolding show
build_soql lib sobject fields since page_size = concat (
    "SELECT "
    ∷ comma_separated fields
    ∷ " FROM "
    ∷ sobject
    ∷ where_clause lib since
    ∷ " ORDER BY SystemModstamp ASC, Id ASC LIMIT "
    ∷ show page_size
    ∷ [])

-- The settings, and the pages that the API answers a query with at a tick: an error where the token
-- or a page is refused.
pub record Api : Type 0 where
  pub base_url : String
  pub api_version : String
  pub page_size : ℕ
  pub bucket : String
  pub pages : ℕ → String → Result Items

-- `page.get("records", [])`
abbrev page_records : Fields → Result Items
page_records fs = elim (lookup "records" fs) [
  | none ↦ ok nil
  | some v ↦ elim v [
    | arr vs ↦ ok vs
    | _ ↦ err (failure ErrorKind.type_error "records is not a list")
  ]
]

abbrev pub flat_records : Items → Result Items
flat_records nil = ok nil
flat_records (cons (obj page) pages) =
    page_records page >>> λ records. flat_records pages >>> λ rest. ok (append_items records rest)
flat_records (cons v pages) = err (failure ErrorKind.type_error "object has no attribute 'get'")

abbrev pub last_item : Value → Items → Value
last_item v nil = v
last_item v (cons w vs) = last_item w vs

abbrev pub count_items : Items → ℕ
count_items nil = 0
count_items (cons v vs) = suc (count_items vs)

-- What a pull that finds records tells of them.
pub record Pull : Type 0 where
  pub sobject : String
  pub fields : List String
  pub trigger_event_ref : String
  pub since : Option ℕ
  pub pages : Items
  pub row_count : ℕ
  pub trace_id : String
  pub request_id : String

module _ (env : Env) (api : Api) where
  abbrev iso_or_null : Option ℕ → Value
  iso_or_null none = null
  iso_or_null (some t) = str (env.library.isoformat t)

  -- `_latest_cursor`
  unfoldable pub latest_cursor : String → Exec World (Option ℕ)
  latest_cursor sobject = transact env (do
    cursor ← on_store (latest_sf_cursor sobject)
    pure (elim cursor [ none ↦ none | some c ↦ some c.0 ]))

  abbrev pub ask_pages : String → Exec World Items
  ask_pages soql w = (api.pages w.ticks soql, tick w)

  abbrev pub salesforce_event : String → Pull → String → Fields → Draft
  salesforce_event event_type p run_id payload = record {
    event_id = none;
    event_type = event_type;
    source = EventSource.salesforce;
    run_id = run_id;
    pipeline_class = PipelineClass.ingestion;
    pipeline_name = PipelineName.salesforce_ingestion;
    parent_run_id = none;
    trigger_event_ref = p.trigger_event_ref;
    trace_id = p.trace_id;
    occurred_at = none;
    payload = payload;
  }

  unfoldable pub pull_started : Pull → String → Draft
  pull_started p run_id = salesforce_event topic_pull_started p run_id (
      dict (
        (
          "message",
          str (concat ("Salesforce incremental pull started for " ∷ p.sobject ∷ "." ∷ [])),
        )
        ∷ ("object_name", str p.sobject)
        ∷ ("cursor_from", iso_or_null p.since)
        ∷ ("cursor_to", null)
        ∷ ("request_id", str p.request_id)
        ∷ []))

  -- the run and its first event
  unfoldable pub open_pull_run : Pull → String → Exec World String
  open_pull_run p run_id = transact env (do
    id ← on_store (
        open_run (record {
          run_id = run_id;
          pipeline_class = PipelineClass.ingestion;
          pipeline_name = PipelineName.salesforce_ingestion;
          source_system = "salesforce";
          trigger_type = "schedule";
          trigger_event_ref = p.trigger_event_ref;
          initiator = "airflow";
          status = "running";
          parent_run_id = none;
        }))
    started ← build env (pull_started p id)
    inserted ← on_store (append_event started topic_pull_started (negsuc 0) (negsuc 0))
    pure id)

  -- `_raw_key`, in the bucket
  unfoldable pub raw_page_uri : String → String → ℕ → ℕ → String
  unfolding run_folder show
  raw_page_uri sobject run_id now idx = concat (
      "s3://"
      ∷ api.bucket
      ∷ "/"
      ∷ run_folder env.library (concat ("raw/source=salesforce/object=" ∷ sobject ∷ [])) now run_id
      ∷ "page-"
      ∷ four_digits idx
      ∷ ".json"
      ∷ [])

  -- `_write_pages_to_minio`
  unfoldable pub write_pages : String → String → ℕ → Items → Exec World (List String)
  unfolding raw_page_uri
  write_pages sobject run_id idx nil = pure []
  write_pages sobject run_id idx (cons page pages) = do
    now ← draw_time env
    put_object env (raw_page_uri sobject run_id now idx) (env.library.dumps page)
    uris ← write_pages sobject run_id (suc idx) pages
    pure (raw_page_uri sobject run_id now idx ∷ uris)

  unfoldable pub raw_ready_draft : Pull → String → List String → Value → Value → Draft
  unfolding show
  raw_ready_draft p run_id output_uris cursor_ts cursor_id =
      salesforce_event topic_salesforce_raw_ready p run_id (
        dict (
          (
            "message",
            str (
                concat (
                  "Salesforce incremental pull landed "
                  ∷ show p.row_count
                  ∷ " "
                  ∷ p.sobject
                  ∷ " rows to raw."
                  ∷ [])),
          )
          ∷ ("stage", str "raw")
          ∷ ("sobject", str p.sobject)
          ∷ ("since_cursor_ts", iso_or_null p.since)
          ∷ ("proposed_cursor_ts", cursor_ts)
          ∷ ("proposed_cursor_id", cursor_id)
          ∷ ("row_count", int (pos p.row_count))
          ∷ ("page_count", int (pos (count_items p.pages)))
          ∷ ("fields", arr (strings p.fields))
          ∷ ("api_version", str api.api_version)
          ∷ ("request_id", str p.request_id)
          ∷ (
            "input_uris",
            arr (
                strings (
                  concat (api.base_url ∷ "/services/data/" ∷ api.api_version ∷ "/query" ∷ [])
                  ∷ [])),
          )
          ∷ ("output_uris", arr (strings output_uris))
          ∷ ("transform_id", str "salesforce_incremental_pull")
          ∷ ("transform_version", str "v1")
          ∷ []))

  -- the alert and the end of the run after a failed publish
  abbrev pub fail_pull : Pull → String → Error → Exec World Unit
  fail_pull p run_id e = do
    at ← draw_time env
    on_store (
        raise_alert (record {
          run_id = run_id;
          severity = "high";
          category = "salesforce_raw_ready_produce_failed";
          summary = "Salesforce raw.ready publish failed";
          details = dict (
              ("error", str e.message)
              ∷ ("sobject", str p.sobject)
              ∷ ("trigger_event_ref", str p.trigger_event_ref)
              ∷ []);
          occurred_at = at;
        }))
    done ← draw_time env
    on_store (close_run run_id "failed" done)

  abbrev pub unpublished : Pull → String → Error → Exec World (ℕ × ℕ)
  unpublished p run_id e =
      transact env (fail_pull p run_id e)
      >> raise (failure ErrorKind.workflow_error "failed to publish ingest.salesforce.raw.ready.v1")

  abbrev pub record_raw_ready : Envelope → ℕ × ℕ → Exec World Bool
  record_raw_ready envelope (partition, offset) =
      on_store (append_event envelope topic_salesforce_raw_ready (pos partition) (pos offset))

  -- from the opened run to the recorded event
  unfoldable pub land_pull : Pull → Value → String → Exec World ℕ
  land_pull p last run_id = do
    output_uris ← write_pages p.sobject run_id 0 p.pages
    cursor_ts ← lift (item "SystemModstamp" last)
    cursor_id ← lift (item "Id" last)
    envelope ← build env (raw_ready_draft p run_id output_uris cursor_ts cursor_id)
    place ← λ w.
        handled
          (produce env topic_salesforce_raw_ready envelope (concat (p.sobject ∷ ":" ∷ run_id ∷ []))
            w)
          (unpublished p run_id)
    recorded ← transact env (record_raw_ready envelope place)
    pure p.row_count

  -- A pull that finds no record opens no run.
  abbrev pub land_records : String → List String → String → Option ℕ → Items → Items → Exec World ℕ
  land_records sobject fields ref since pages nil = pure 0
  land_records sobject fields ref since pages (cons r rs) = do
    run_id ← draw_uuid env
    trace_id ← draw_uuid env
    request_id ← draw_uuid env
    p ← pure (record {
      sobject = sobject;
      fields = fields;
      trigger_event_ref = ref;
      since = since;
      pages = pages;
      row_count = count_items (cons r rs);
      trace_id = trace_id;
      request_id = request_id;
    })
    id ← open_pull_run p run_id
    land_pull p (last_item r rs) id

  abbrev pub pull_fields : String → String → Option (List String) → Exec World ℕ
  pull_fields sobject logical_ts none = raise (failure ErrorKind.workflow_error "unknown SObject")
  pull_fields sobject logical_ts (some fields) = do
    since ← latest_cursor sobject
    pages ← ask_pages (build_soql env.library sobject fields since api.page_size)
    records ← lift (flat_records pages)
    land_records sobject fields
        (concat ("salesforce_incremental_pull__" ∷ logical_ts ∷ "__" ∷ sobject ∷ [])) since pages
        records

  -- `pull_sobject`, at the logical time of a scheduled run; the number of rows that it has landed
  unfoldable pub pull_sobject : String → String → Exec World ℕ
  unfolding build_soql
  pull_sobject sobject logical_ts = pull_fields sobject logical_ts (fields_of sobject)
