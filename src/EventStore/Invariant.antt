-- ===== src/EventStore/Invariant.antt =====
-- The well-formedness of the event store, and that every operation of `PgEventStore` keeps it.
use fintech_data_platform.Prelude.{
  ℕ, String, ◌≡◌, refl, Bool, true, false, not, ◌||◌, ◌==◌, Option, none, some, List, [], ◌∷◌, map,
  any, All, All-imp, arith, eq_refl, or_false,
}
use fintech_data_platform.Prelude.Int.{ℤ}
use fintech_data_platform.Exec.{Keeps, Keeps-bind, if_leaves, keeps_rules}
use fintech_data_platform.Envelope.{Envelope, name_value}
use fintech_data_platform.EventStore.{
  Db, Run, Event, Alert, NewRun, CdcCheckpoint, SfCursor, CuratedCheckpoint, is_triggered_by,
  has_run, has_event, same_position, same_event, open_run, open_run_insert,
  open_run_select_existing, or_existing, missing_run, row_of, check_run, parent_exists, close_run,
  closed, insert_event, event_of, append_event, raise_alert, append_cdc_checkpoint,
  append_sf_cursor_checkpoint, latest_sf_cursor, append_silver_checkpoint, append_gold_checkpoint,
}

-- No two runs have one trigger, and no two have one id.
abbrev pub UniqueRuns : List Run → Type 0
UniqueRuns [] = Unit
UniqueRuns (r ∷ rs) =
    (any (is_triggered_by r.pipeline_name r.trigger_event_ref) rs ≡ false)
    × (has_run r.run_id rs ≡ false)
    × UniqueRuns rs

-- No two events have one position in the log.
abbrev pub UniquePositions : List Event → Type 0
UniquePositions [] = Unit
UniquePositions (e ∷ es) = (any (same_position e) es ≡ false) × UniquePositions es

abbrev is_text : String → String → Bool
is_text a b = b == a

-- A run has an event, or the transaction in progress inserted it.
abbrev pub is_accounted : Db → Run → Bool
is_accounted db r = has_event r.run_id db.events || any (is_text r.run_id) db.inserted

pub record IsValid (db : Db) : Type 0 where
  pub unique_runs : UniqueRuns db.runs
  pub unique_positions : UniquePositions db.events
  pub events_known : All (λ (e : Event). has_run e.run_id db.runs ≡ true) db.events
  pub alerts_known : All (λ (a : Alert). has_run a.run_id db.runs ≡ true) db.alerts
  pub accounted : All (λ (r : Run). is_accounted db r ≡ true) db.runs

-- The columns that `close_run` leaves alone.
closed_keys :
    (id status : String) (t : ℕ) (r : Run)
    → ((closed id status t r).run_id ≡ r.run_id)
      × ((closed id status t r).pipeline_name ≡ r.pipeline_name)
      × ((closed id status t r).trigger_event_ref ≡ r.trigger_event_ref)
closed_keys id status t r = ground arith

module _ (id status : String) (t : ℕ) where
  pub has_run-close :
      (x : String) (rs : List Run) → has_run x (map (closed id status t) rs) ≡ has_run x rs
  has_run-close x [] = refl
  has_run-close x (r ∷ rs) = ground (arith, closed_keys id status t r, has_run-close x rs)

  triggered-close :
      (n x : String) (rs : List Run)
      → any (is_triggered_by n x) (map (closed id status t) rs) ≡ any (is_triggered_by n x) rs
  triggered-close n x [] = refl
  triggered-close n x (r ∷ rs) = ground (arith, closed_keys id status t r, triggered-close n x rs)

  UniqueRuns-close : (rs : List Run) → UniqueRuns rs → UniqueRuns (map (closed id status t) rs)
  UniqueRuns-close [] h = tt
  UniqueRuns-close (r ∷ rs) h =
      let k = closed_keys id status t r in
      (rw (k.1, k.2, triggered-close) (h.0), rw (k.0, has_run-close) (h.1), UniqueRuns-close rs h.2)

accounted-close :
    (id status : String) (t : ℕ) (db : Db) (rs : List Run)
    → All (λ (r : Run). is_accounted db r ≡ true) rs
    → All (λ (r : Run). is_accounted db r ≡ true) (map (closed id status t) rs)
accounted-close id status t db [] h = tt
accounted-close id status t db (r ∷ rs) h =
    (rw ((closed_keys id status t r).0) (h.0), accounted-close id status t db rs h.1)

-- Closing a run keeps the store well formed.
pub close_run-IsValid : (id status : String) (t : ℕ) → Keeps IsValid (close_run id status t)
unfolding close_run
close_run-IsValid id status t = record {
  at = λ db v. record {
    unique_runs = UniqueRuns-close id status t db.runs v.unique_runs;
    unique_positions = v.unique_positions;
    events_known = All-imp db.events (λ e h. rw has_run-close h) v.events_known;
    alerts_known = All-imp db.alerts (λ a h. rw has_run-close h) v.alerts_known;
    accounted = accounted-close id status t db db.runs v.accounted;
  };
}

has_run-cons :
    (x : String) (r : Run) (rs : List Run) → has_run x rs ≡ true → has_run x (r ∷ rs) ≡ true
has_run-cons x r rs h = ground arith

accounted-insert :
    (db : Db) (r s : Run)
    → is_accounted db s ≡ true
    → is_accounted (record db { runs = r ∷ db.runs; inserted = r.run_id ∷ db.inserted }) s ≡ true
accounted-insert db r s h = ground arith

pub insert_run-IsValid :
    (r : Run) (db : Db)
    → any (is_triggered_by r.pipeline_name r.trigger_event_ref) db.runs ≡ false
    → has_run r.run_id db.runs ≡ false
    → IsValid db
    → IsValid (record db { runs = r ∷ db.runs; inserted = r.run_id ∷ db.inserted })
insert_run-IsValid r db fresh_ref fresh_id v = record {
  unique_runs = (fresh_ref, fresh_id, v.unique_runs);
  unique_positions = v.unique_positions;
  events_known = All-imp db.events (λ e h. has_run-cons e.run_id r db.runs h) v.events_known;
  alerts_known = All-imp db.alerts (λ a h. has_run-cons a.run_id r db.runs h) v.alerts_known;
  accounted = (
    ground (arith, eq_refl r.run_id),
    All-imp db.runs (λ s h. accounted-insert db r s h) v.accounted,
  );
}

open_run_insert-IsValid : (r : Run) → Keeps IsValid (open_run_insert r)
unfolding open_run_insert
open_run_insert-IsValid r = record {
  at = λ db v.
      if_leaves IsValid (not (check_run r)) _ _ (λ _. v)
        λ _.
          if_leaves IsValid (any (is_triggered_by r.pipeline_name r.trigger_event_ref) db.runs) _ _
            (λ _. v)
            λ fresh_ref.
              if_leaves IsValid (has_run r.run_id db.runs || not (parent_exists r (r ∷ db.runs))) _
                _ (λ _. v) λ free. insert_run-IsValid r db fresh_ref (or_false _ _ free).0 v;
}

open_run_select_existing-IsValid : (n x : String) → Keeps IsValid (open_run_select_existing n x)
unfolding open_run_select_existing
open_run_select_existing-IsValid n x = record { at = λ db v. v }

missing_run-IsValid : (o : Option String) → Keeps IsValid (missing_run o)
missing_run-IsValid none = search keeps_rules
missing_run-IsValid (some id) = search keeps_rules

or_existing-IsValid : (n x : String) (o : Option String) → Keeps IsValid (or_existing n x o)
or_existing-IsValid n x (some id) = search keeps_rules
or_existing-IsValid n x none =
    search (keeps_rules, open_run_select_existing-IsValid, missing_run-IsValid)

-- Opening a run keeps the store well formed, on every branch.
pub open_run-IsValid : (n : NewRun) → Keeps IsValid (open_run n)
unfolding open_run
open_run-IsValid n =
    Keeps-bind (open_run_insert (row_of n))
      (or_existing (name_value n.pipeline_name) n.trigger_event_ref)
      (open_run_insert-IsValid (row_of n))
      (or_existing-IsValid (name_value n.pipeline_name) n.trigger_event_ref)

accounted-event :
    (db : Db) (e : Event) (r : Run)
    → is_accounted db r ≡ true
    → is_accounted (record db { events = e ∷ db.events }) r ≡ true
accounted-event db e r h = ground arith

insert_event-IsValid : (e : Event) → Keeps IsValid (insert_event e)
unfolding insert_event
insert_event-IsValid e = record {
  at = λ db v.
      if_leaves IsValid (any (same_position e) db.events) _ _ (λ _. v)
        λ free.
          if_leaves IsValid (any (same_event e) db.events || not (has_run e.run_id db.runs)) _ _
            (λ _. v)
            λ known. record {
              unique_runs = v.unique_runs;
              unique_positions = (free, v.unique_positions);
              events_known = (ground (arith, known), v.events_known);
              alerts_known = v.alerts_known;
              accounted = All-imp db.runs (λ r h. accounted-event db e r h) v.accounted;
            };
}

-- Appending an event keeps the store well formed, on every branch.
pub append_event-IsValid :
    (n : Envelope) (topic : String) (p o : ℤ) → Keeps IsValid (append_event n topic p o)
unfolding append_event
append_event-IsValid n topic p o = insert_event-IsValid (event_of n topic p o)

pub raise_alert-IsValid : (a : Alert) → Keeps IsValid (raise_alert a)
unfolding raise_alert
raise_alert-IsValid a = record {
  at = λ db v.
      if_leaves IsValid (has_run a.run_id db.runs) _ _
        (λ known. record {
          unique_runs = v.unique_runs;
          unique_positions = v.unique_positions;
          events_known = v.events_known;
          alerts_known = (known, v.alerts_known);
          accounted = v.accounted;
        })
        (λ _. v);
}

-- The invariant reads the runs, the events, the alerts and the runs inserted alone.
pub IsValid-core :
    {a : Db} (b : Db)
    → IsValid a
    → b.runs ≡ a.runs
    → b.events ≡ a.events
    → b.alerts ≡ a.alerts
    → b.inserted ≡ a.inserted
    → IsValid b
IsValid-core b v er ee ea ei = record {
  unique_runs = rw er v.unique_runs;
  unique_positions = rw ee v.unique_positions;
  events_known = rw (ee, er) v.events_known;
  alerts_known = rw (ea, er) v.alerts_known;
  accounted = rw (er, ee, ei) v.accounted;
}

pub append_cdc_checkpoint-IsValid : (c : CdcCheckpoint) → Keeps IsValid (append_cdc_checkpoint c)
unfolding append_cdc_checkpoint
append_cdc_checkpoint-IsValid c = record {
  at = λ db v. IsValid-core _ v (ground arith) (ground arith) (ground arith) (ground arith);
}

pub append_sf_cursor_checkpoint-IsValid :
    (c : SfCursor) → Keeps IsValid (append_sf_cursor_checkpoint c)
unfolding append_sf_cursor_checkpoint
append_sf_cursor_checkpoint-IsValid c = record {
  at = λ db v. IsValid-core _ v (ground arith) (ground arith) (ground arith) (ground arith);
}

pub append_silver_checkpoint-IsValid :
    (c : CuratedCheckpoint) → Keeps IsValid (append_silver_checkpoint c)
unfolding append_silver_checkpoint
append_silver_checkpoint-IsValid c = record {
  at = λ db v. IsValid-core _ v (ground arith) (ground arith) (ground arith) (ground arith);
}

pub append_gold_checkpoint-IsValid :
    (c : CuratedCheckpoint) → Keeps IsValid (append_gold_checkpoint c)
unfolding append_gold_checkpoint
append_gold_checkpoint-IsValid c = record {
  at = λ db v. IsValid-core _ v (ground arith) (ground arith) (ground arith) (ground arith);
}

pub latest_sf_cursor-IsValid : (sobject : String) → Keeps IsValid (latest_sf_cursor sobject)
unfolding latest_sf_cursor
latest_sf_cursor-IsValid sobject = record { at = λ db v. v }
