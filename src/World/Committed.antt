-- ===== src/World/Committed.antt =====
-- What every transaction of every worker leaves in the event store.
use fintech_data_platform.Prelude.{
  String, ◌≡◌, true, ◌==◌, List, [], ◌∷◌, any, all, All, All-imp, arith, eq_iff, Option, none, some,
}
use fintech_data_platform.Exec.{Exec, Error, Result, ok, err, Keeps, if_leaves, keeps_rules}
use fintech_data_platform.EventStore.{Db, Run, has_event, trigger_passes}
use fintech_data_platform.EventStore.Invariant.{
  IsValid, is_accounted, open_run-IsValid, close_run-IsValid, append_event-IsValid,
  raise_alert-IsValid, append_cdc_checkpoint-IsValid, append_sf_cursor_checkpoint-IsValid,
  append_silver_checkpoint-IsValid, append_gold_checkpoint-IsValid,
}
use fintech_data_platform.Envelope.{Envelope}
use fintech_data_platform.Library.{Time}
use fintech_data_platform.World.{
  Env, World, Fault, Draft, transact, on_store, tick, commit, begun, in_transaction, build, produce,
  draw_uuid, draw_time, or_draw_uuid, or_draw_time, delivered,
}

-- A well-formed store, between transactions: every run has an event.
pub record IsCommitted (db : Db) : Type 0 where
  pub valid : IsValid db
  pub evented : All (λ (r : Run). has_event r.run_id db.events ≡ true) db.runs

abbrev pub IsStored : World → Type 0
IsStored w = IsCommitted w.store

abbrev pub StoreIsValid : World → Type 0
StoreIsValid w = IsValid w.store

-- Within a body: the store is well formed.
pub on_store-StoreIsValid :
    {A : Type 0} (m : Exec Db A) → Keeps IsValid m → Keeps StoreIsValid (on_store m)
on_store-StoreIsValid m k = record { at = λ w v. k.at w.store v }

-- What holds of the store, whatever else the world holds.
module _ (env : Env) (Q : Db → Type 0) where
  abbrev pub OnStore : World → Type 0
  OnStore w = Q w.store

  pub draw_uuid-OnStore : Keeps OnStore (draw_uuid env)
  unfolding draw_uuid
  draw_uuid-OnStore = record { at = λ w h. h }

  pub draw_time-OnStore : Keeps OnStore (draw_time env)
  unfolding draw_time
  draw_time-OnStore = record { at = λ w h. h }

  or_draw_uuid-OnStore : (o : Option String) → Keeps OnStore (or_draw_uuid env o)
  or_draw_uuid-OnStore none = draw_uuid-OnStore
  or_draw_uuid-OnStore (some id) = search keeps_rules

  or_draw_time-OnStore : (o : Option Time) → Keeps OnStore (or_draw_time env o)
  or_draw_time-OnStore none = search (keeps_rules, draw_time-OnStore)
  or_draw_time-OnStore (some t) = search keeps_rules

  pub build-OnStore : (d : Draft) → Keeps OnStore (build env d)
  unfolding build
  build-OnStore d = search (keeps_rules, or_draw_uuid-OnStore, or_draw_time-OnStore) depth 12

  delivered-OnStore :
      (f : Fault) (topic key : String) (e : Envelope) → Keeps OnStore (delivered env f topic key e)
  delivered-OnStore Fault.fine topic key e = record { at = λ w h. h }
  delivered-OnStore Fault.lost topic key e = record { at = λ w h. h }
  delivered-OnStore Fault.unacked topic key e = record { at = λ w h. h }

  pub produce-OnStore :
      (topic : String) (e : Envelope) (key : String) → Keeps OnStore (produce env topic e key)
  unfolding produce
  produce-OnStore topic e key = record {
    at = λ w h. (delivered-OnStore (env.fault w.ticks) topic key e).at (tick w) h;
  }

has_event-of_inserted :
    (db : Db) (id : String) (ids : List String)
    → all (λ x. has_event x db.events) ids ≡ true
    → any (λ x. x == id) ids ≡ true
    → has_event id db.events ≡ true
has_event-of_inserted db id [] h k = cc
has_event-of_inserted db id (x ∷ ids) h k =
    ground (arith, eq_iff x id, has_event-of_inserted db id ids)

evented_at_commit :
    (db : Db)
    → IsValid db
    → trigger_passes db ≡ true
    → All (λ (r : Run). has_event r.run_id db.events ≡ true) db.runs
evented_at_commit db v h =
    All-imp db.runs (λ r k. ground (arith, k, has_event-of_inserted db r.run_id db.inserted h))
      v.accounted

module _ (env : Env) where
  begun-StoreIsValid : (w : World) → IsStored w → StoreIsValid (begun env w)
  begun-StoreIsValid w s = record {
    unique_runs = s.valid.unique_runs;
    unique_positions = s.valid.unique_positions;
    events_known = s.valid.events_known;
    alerts_known = s.valid.alerts_known;
    accounted = All-imp w.store.runs (λ r h. ground (arith, h)) s.evented;
  }

  module _ {A : Type 0} where
    commit-IsStored :
        (f : Fault) (w w' : World) (r : Result A)
        → IsStored w
        → StoreIsValid w'
        → IsStored (commit env f w.store r w').1
    commit-IsStored f w w' (err e) s v = record { valid = s.valid; evented = s.evented }
    commit-IsStored f w w' (ok a) s v =
        if_leaves IsStored (trigger_passes w'.store) _ _
          (λ passed. record { valid = v; evented = evented_at_commit w'.store v passed })
          (λ _. record { valid = s.valid; evented = s.evented })

    in_transaction-IsStored :
        (f : Fault) (body : Exec World A)
        → Keeps StoreIsValid body
        → Keeps IsStored (in_transaction env f body)
    in_transaction-IsStored Fault.lost body k = record { at = λ w s. s }
    in_transaction-IsStored Fault.fine body k = record {
      at = λ w s.
          commit-IsStored Fault.fine w (body (begun env w)).1 (body (begun env w)).0 s
            (k.at (begun env w) (begun-StoreIsValid w s));
    }
    in_transaction-IsStored Fault.unacked body k = record {
      at = λ w s.
          commit-IsStored Fault.unacked w (body (begun env w)).1 (body (begun env w)).0 s
            (k.at (begun env w) (begun-StoreIsValid w s));
    }

    -- Whatever a transaction's body does that keeps the store well formed, and however the
    -- transaction ends, the store that it leaves is well formed and has an event for every run.
    pub transact-IsStored :
        (body : Exec World A) → Keeps StoreIsValid body → Keeps IsStored (transact env body)
    unfolding transact
    transact-IsStored body k = record {
      at = λ w s.
          (in_transaction-IsStored (env.fault w.ticks) body k).at (tick w)
            (record { valid = s.valid; evented = s.evented });
    }

module _ (env : Env) where
  pub draw_time-StoreIsValid : Keeps StoreIsValid (draw_time env)
  draw_time-StoreIsValid = draw_time-OnStore env IsValid

  pub build-StoreIsValid : (d : Draft) → Keeps StoreIsValid (build env d)
  build-StoreIsValid d = build-OnStore env IsValid d

  pub build-IsStored : (d : Draft) → Keeps IsStored (build env d)
  build-IsStored d = build-OnStore env IsCommitted d

  pub draw_uuid-IsStored : Keeps IsStored (draw_uuid env)
  draw_uuid-IsStored = draw_uuid-OnStore env IsCommitted

  pub draw_time-IsStored : Keeps IsStored (draw_time env)
  draw_time-IsStored = draw_time-OnStore env IsCommitted

  pub produce-IsStored :
      (topic : String) (e : Envelope) (key : String) → Keeps IsStored (produce env topic e key)
  produce-IsStored topic e key = produce-OnStore env IsCommitted topic e key

-- For the body of a transaction.
pub ruleset store_rules = (
  keeps_rules, on_store-StoreIsValid, open_run-IsValid, close_run-IsValid, append_event-IsValid,
  raise_alert-IsValid, append_cdc_checkpoint-IsValid, append_sf_cursor_checkpoint-IsValid,
  append_silver_checkpoint-IsValid, append_gold_checkpoint-IsValid, draw_time-StoreIsValid,
  build-StoreIsValid,
)

-- For what a worker does between its transactions.
pub ruleset worker_rules =
    (keeps_rules, build-IsStored, draw_uuid-IsStored, draw_time-IsStored, produce-IsStored)
