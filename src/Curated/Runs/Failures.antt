-- ===== src/Curated/Runs/Failures.antt =====
-- The failure callback of the curated DAGs.
use fintech_data_platform.Prelude.{
  ℕ, String, ◌≡◌, refl, ap, ◌∙◌, false, Option, none, some, arith, if◌then◌else◌,
}
use fintech_data_platform.Prelude.Int.{ℤ, pos}
use fintech_data_platform.Json.{Value, str, Fields, get, truthy}
use fintech_data_platform.Envelope.{Envelope}
use fintech_data_platform.Exec.{
  Error, Exec, Keeps, Raises, Raises-bind, Result, continue, err, keeps_rules, lift, ok, pure,
  ◌>>=◌,
}
use fintech_data_platform.EventStore.{
  Alert, Db, append_event, close_run, has_run, insert_event, raise_alert, violation,
}
use fintech_data_platform.EventStore.Invariant.{has_run-close}
use fintech_data_platform.World.{
  Env, Fault, World, begun, commit, draw_time, draw_uuid, in_transaction, on_store, tick, transact,
}
use fintech_data_platform.World.Committed.{
  OnStore, build-OnStore, draw_uuid-OnStore, produce-OnStore,
}
use fintech_data_platform.Ready.Excel.{parsed_uuid}
use fintech_data_platform.Curated.Runs.{
  CuratedRun, emit_curated_failure, emit_failure_for, emit_failure_of, run_of, uuid_or_new,
  record_failed, safe_emit_curated_failure, uuid_value,
}

module _ (env : Env) (id : String) where
  -- There is no run of the id.
  abbrev Lacks : World → Type 0
  Lacks w = has_run id w.store.runs ≡ false

  append_event-runs :
      (e : Envelope) (topic : String) (p n : ℤ) (db : Db)
      → (append_event e topic p n db).1.runs ≡ db.runs
  unfolding append_event insert_event
  append_event-runs e topic p n db = ground arith

  append_event-Lacks :
      (e : Envelope) (topic : String) (p n : ℤ) → Keeps Lacks (on_store (append_event e topic p n))
  append_event-Lacks e topic p n = record {
    at = λ w h. ap (has_run id) (append_event-runs e topic p n w.store) ∙ h;
  }

  close_run-Lacks : (status : String) (t : ℕ) → Keeps Lacks (on_store (close_run id status t))
  unfolding close_run
  close_run-Lacks status t = record { at = λ w h. has_run-close id status t id w.store.runs ∙ h }

  draw_time-Lacks : Keeps Lacks (draw_time env)
  unfolding draw_time
  draw_time-Lacks = record { at = λ w h. h }

  raise_alert-Raises : (a : Alert) → a.run_id ≡ id → Raises Lacks (on_store (raise_alert a))
  unfolding raise_alert
  raise_alert-Raises a q = record {
    at = λ w h. (violation "alert_event run_id", rw q (ground (arith, h)));
  }

  -- A transaction that cannot end well leaves the store.
  transact-Raises :
      (A : Type 0) (db : Db) (body : Exec World A)
      → Raises Lacks body
      → has_run id db.runs ≡ false
      → Keeps (OnStore env (λ x. x ≡ db)) (transact env body)
  unfolding transact
  transact-Raises A db body raises lacks = record {
    at = λ w h. in_fault (env.fault w.ticks) (tick w) h;
  }
    where
      committed :
          (f : Fault) (w : World) (r : Result A × World)
          → w.store ≡ db
          → (e : Error) × (r.0 ≡ err e)
          → (commit env f w.store r.0 r.1).1.store ≡ db
      committed f w (err e, x) h q = h
      committed f w (ok a, x) h (e, q) = absurd (ground (arith, q))

      in_fault : (f : Fault) (w : World) → w.store ≡ db → (in_transaction env f body w).1.store ≡ db
      in_fault Fault.lost w h = h
      in_fault Fault.fine w h =
          committed Fault.fine w (body (begun env w)) h
            (raises.at (begun env w) (ap (λ (x : Db). has_run id x.runs) h ∙ lacks))
      in_fault Fault.unacked w h =
          committed Fault.unacked w (body (begun env w)) h
            (raises.at (begun env w) (ap (λ (x : Db). has_run id x.runs) h ∙ lacks))

module _ (env : Env) (topic : String) (payload : Fields) where
  record_failed-Raises :
      (r : CuratedRun) (envelope : Envelope) (place : ℕ × ℕ)
      → Raises (Lacks env r.run_id) (record_failed env r topic payload envelope place)
  record_failed-Raises r envelope (p, n) =
      Raises-bind _ _ (append_event-Lacks env r.run_id envelope topic (pos p) (pos n)) (λ inserted.
        Raises-bind _ _ (draw_time-Lacks env r.run_id) (λ done.
          Raises-bind _ _ (close_run-Lacks env r.run_id "failed" done) (λ closed.
            Raises-bind _ _ (draw_time-Lacks env r.run_id)
              (λ at. raise_alert-Raises env r.run_id _ refl))))

  abbrev KeepsStore : {A : Type 0} → Db → Exec World A → Type 0
  KeepsStore db m = Keeps (OnStore env (λ x. x ≡ db)) m

  recorded-KeepsStore :
      (r : CuratedRun) (db : Db)
      → has_run r.run_id db.runs ≡ false
      → (e : Envelope) (place : ℕ × ℕ)
      → KeepsStore db (transact env (record_failed env r topic payload e place))
  recorded-KeepsStore r db lacks e place =
      transact-Raises env r.run_id _ db _ (record_failed-Raises r e place) lacks

  safe_emit-KeepsStore :
      (r : CuratedRun) (db : Db)
      → has_run r.run_id db.runs ≡ false
      → KeepsStore db (safe_emit_curated_failure env r topic payload)
  unfolding safe_emit_curated_failure emit_curated_failure
  safe_emit-KeepsStore r db lacks =
      search (keeps_rules, build-OnStore, produce-OnStore, recorded-KeepsStore) depth 16

  uuid_or_new-KeepsStore : (db : Db) (v : Value) → KeepsStore db (uuid_or_new env v)
  uuid_or_new-KeepsStore db v = search (keeps_rules, draw_uuid-OnStore)

  run_of-KeepsStore :
      (run_id : String) (db : Db)
      → has_run run_id db.runs ≡ false
      → (parent : Option String) (trace ref : String)
      → KeepsStore db
          (safe_emit_curated_failure env (run_of env run_id parent trace ref) topic payload)
  run_of-KeepsStore run_id db lacks parent trace ref =
      safe_emit-KeepsStore (run_of env run_id parent trace ref) db lacks

  emit_for-KeepsStore :
      (conf : Fields) (dag_run_id run_id : String) (db : Db)
      → has_run run_id db.runs ≡ false
      → KeepsStore db (emit_failure_for env conf dag_run_id topic payload run_id)
  emit_for-KeepsStore conf dag_run_id run_id db lacks =
      search (keeps_rules, uuid_or_new-KeepsStore, run_of-KeepsStore run_id db lacks) depth 16

  -- The failure callback of a run whose conf has no `_curated_run_id` leaves the event store as it
  -- was, where the id that it draws is no run's, whatever the failures of the services: no run is
  -- closed, and no event or alert is recorded.
  pub failure_is_unrecorded :
      (conf : Fields) (dag_run_id : String) (w : World)
      → truthy (get "_curated_run_id" conf) ≡ false
      → ((id : String)
          → env.library.uuid_of (env.uuid w.ticks) ≡ some id
          → has_run id w.store.runs ≡ false)
      → (emit_failure_of env conf dag_run_id topic payload w).1.store ≡ w.store
  unfolding emit_failure_of draw_uuid
  failure_is_unrecorded conf dag_run_id w absent fresh =
      ap
        (λ b.
          (((if b
                then pure (get "_curated_run_id" conf)
                else (draw_uuid env >>= λ id. pure (str id)))
              >>= (λ v.
                  lift (uuid_value env v) >>= emit_failure_for env conf dag_run_id topic payload))
            w).1.store)
        absent
      ∙ of_uuid (env.library.uuid_of (env.uuid w.ticks)) refl
    where
      of_uuid :
          (o : Option String)
          → env.library.uuid_of (env.uuid w.ticks) ≡ o
          → (continue
              (parsed_uuid o)
              (emit_failure_for env conf dag_run_id topic payload)
              (tick w)).1.store
            ≡ w.store
      of_uuid none q = refl
      of_uuid (some id) q =
          (emit_for-KeepsStore conf dag_run_id id w.store (fresh id q)).at (tick w) refl
