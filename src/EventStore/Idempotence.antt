-- ===== src/EventStore/Idempotence.antt =====
-- `open_run` and `close_run`: one run for one trigger, and what closing it changes.
use fintech_data_platform.Prelude.{
  ℕ, String, ◌≡◌, refl, ap, ◌∙◌, Bool, true, some, any, find, find-some, map, List, [], ◌∷◌, arith,
  eq_refl, eq_iff, Bool-cases, inl, inr, ◌≢◌,
}
use fintech_data_platform.Exec.{Error, ErrorKind, ok, err}
use fintech_data_platform.Envelope.{name_value}
use fintech_data_platform.EventStore.{
  Db, Run, NewRun, is_run, is_triggered_by, open_run, row_of, check_run, close_run, closed,
}

abbrev trigger_of : NewRun → Run → Bool
trigger_of n = is_triggered_by (name_value n.pipeline_name) n.trigger_event_ref

-- With a run of this trigger in the table, its id is the answer and nothing is written.
pub open_run_existing :
    (n : NewRun) (db : Db) (r : Run)
    → check_run (row_of n) ≡ true
    → any (trigger_of n) db.runs ≡ true
    → find (trigger_of n) db.runs ≡ some r
    → open_run n db ≡ (ok r.run_id, db)
unfolding open_run
open_run_existing n db r valid taken found = ground arith

-- What a successful call leaves in the table: a run of the trigger that has the returned id.
open_run_leaves :
    (n : NewRun) (db db' : Db) (id : String)
    → open_run n db ≡ (ok id, db')
    → (r : Run) × (find (trigger_of n) db'.runs ≡ some r)
      × (r.run_id ≡ id)
      × (any (trigger_of n) db'.runs ≡ true)
unfolding open_run
open_run_leaves n db db' id h = elim (Bool-cases (any (trigger_of n) db.runs)) [
  | inl taken ↦
      let (r, found) = find-some (trigger_of n) db.runs taken in
      (r, ground arith, ground arith, ground arith)
  | inr fresh ↦ (
    row_of n,
    ground (arith, eq_refl (name_value n.pipeline_name), eq_refl n.trigger_event_ref),
    ground arith,
    ground (arith, eq_refl (name_value n.pipeline_name), eq_refl n.trigger_event_ref),
  )
]

-- Opening a run for a pipeline and trigger reference that has been opened returns the first run's
-- id, whatever else the second call asks for, and changes nothing, when the second call's row meets
-- the table's checks.
pub open_run_once :
    (n m : NewRun) (db db' : Db) (id : String)
    → open_run n db ≡ (ok id, db')
    → m.pipeline_name ≡ n.pipeline_name
    → m.trigger_event_ref ≡ n.trigger_event_ref
    → check_run (row_of m) ≡ true
    → open_run m db' ≡ (ok id, db')
open_run_once n m db db' id opened en er valid =
    let (r, found, same, some_run) = open_run_leaves n db db' id opened in
    open_run_existing m db' r valid (rw (en, er) some_run) (rw (en, er) found)
    ∙ ap (λ (x : String). (ok x, db')) same

-- The error for a conflict with no existing row is never raised: a failing call has met a
-- constraint, and has written nothing.
pub open_run_failure :
    (n : NewRun) (db : Db) (e : Error)
    → (open_run n db).0 ≡ err e
    → (e.kind ≡ ErrorKind.integrity_error) × ((open_run n db).1 ≡ db)
unfolding open_run
open_run_failure n db e h = elim (Bool-cases (any (trigger_of n) db.runs)) [
  | inl taken ↦
      let (r, found) = find-some (trigger_of n) db.runs taken in (ground arith, ground arith)
  | inr fresh ↦ (ground arith, ground arith)
]

find-closed :
    (id status : String) (t : ℕ) (rs : List Run) (r : Run)
    → find (is_run id) rs ≡ some r
    → find (is_run id) (map (closed id status t) rs)
      ≡ some (record r { status = status; completed_at = some t })
find-closed id status t [] r h = cc
find-closed id status t (s ∷ rs) r h = ground (arith, find-closed id status t rs r)

find-closed_ne :
    (id j status : String) (t : ℕ) (rs : List Run)
    → j ≢ id
    → find (is_run j) (map (closed id status t) rs) ≡ find (is_run j) rs
find-closed_ne id j status t [] ne = refl
find-closed_ne id j status t (s ∷ rs) ne =
    ground (arith, find-closed_ne id j status t rs ne, eq_iff s.run_id id, eq_iff s.run_id j)

-- Closing a run gives that run its status and its time of completion, and leaves every other
-- column of it and every other run as they were.
pub close_run_exact :
    (id j status : String) (t : ℕ) (db : Db) (r : Run)
    → find (is_run id) db.runs ≡ some r
    → j ≢ id
    → let db' = (close_run id status t db).1 in
      (find (is_run id) db'.runs ≡ some (record r { status = status; completed_at = some t }))
      × (find (is_run j) db'.runs ≡ find (is_run j) db.runs)
unfolding close_run
close_run_exact id j status t db r h ne =
    (find-closed id status t db.runs r h, find-closed_ne id j status t db.runs ne)
