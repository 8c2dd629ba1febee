-- ===== src/EventStore/Positions.antt =====
-- `append_event`: what each of its outcomes leaves in the log.
use fintech_data_platform.Prelude.{
  String, ◌≡◌, refl, Bool, true, false, List, [], ◌∷◌, any, arith, eq_refl,
}
use fintech_data_platform.Prelude.Int.{ℤ, eqb_ℤ_iff}
use fintech_data_platform.Exec.{Result, ok, err}
use fintech_data_platform.Envelope.{Envelope}
use fintech_data_platform.EventStore.{Db, Event, same_position, has_run, event_of, append_event}

-- What a call of `append_event` leaves, by how it ended.
abbrev pub Appends : Event → Db → Result Bool × Db → Type 0
Appends e db (ok true, db') =
    (db' ≡ record db { events = e ∷ db.events })
    × (any (same_position e) db.events ≡ false)
    × (has_run e.run_id db.runs ≡ true)
Appends e db (ok false, db') = (db' ≡ db) × (any (same_position e) db.events ≡ true)
Appends e db (err _, db') = (db' ≡ db) × (any (same_position e) db.events ≡ false)

-- True means that the row was added at a position that was free, for a known run, and that nothing
-- else changed; false that the position was taken and nothing changed; a failure changes nothing.
pub append_event_outcome :
    (n : Envelope) (topic : String) (p o : ℤ) (db : Db)
    → Appends (event_of n topic p o) db (append_event n topic p o db)
unfolding append_event
append_event_outcome n topic p o db = ground arith

module _ (n m : Envelope) (topic : String) (p o : ℤ) (same : m.occurred_at ≡ n.occurred_at) where
  position_is_taken :
      (es : List Event)
      → any (same_position (event_of m topic p o)) es
        ≡ any (same_position (event_of n topic p o)) es
  position_is_taken [] = refl
  position_is_taken (d ∷ es) = cc (same, position_is_taken es)

  now_taken :
      (es : List Event)
      → any (same_position (event_of m topic p o)) (event_of n topic p o ∷ es) ≡ true
  now_taken es = ground (arith, eq_refl topic, (eqb_ℤ_iff p p).1 refl, (eqb_ℤ_iff o o).1 refl)

  -- Once an append has returned, a second append at that topic, partition and offset with that
  -- time of occurrence returns false and changes nothing, whatever else its envelope holds.
  pub append_event_again :
      (db db' : Db) (b : Bool)
      → append_event n topic p o db ≡ (ok b, db')
      → append_event m topic p o db' ≡ (ok false, db')
  unfolding append_event
  append_event_again db db' b h = ground (arith, position_is_taken db.events, now_taken db.events)
