-- ===== src/World/Published.antt =====
-- What a call that returns has done: the message at the end of the broker's log, its event in the
-- event log, and the end of its run.
use fintech_data_platform.Prelude.{
  ℕ, String, ◌≡◌, refl, ap, sym, subst, ◌⊎◌, inl, inr, Bool, true, false, ◌==◌, List, [], ◌∷◌, All,
  any, map, arith, eq_refl, if◌then◌else◌,
}
use fintech_data_platform.Prelude.Int.{ℤ, pos, eqb_ℤ_iff}
use fintech_data_platform.Envelope.{Envelope, non_empty_ref, well_formed_hash}
use fintech_data_platform.Exec.{Error, Exec, Result, bind_ok, catch, err, handled, lift, ok, ok_inj}
use fintech_data_platform.EventStore.{
  Alert, Db, Run, append_event, close_run, closed, event_of, is_run, raise_alert, same_position,
  trigger_passes, violation,
}
use fintech_data_platform.World.{
  Draft, Env, Fault, Message, World, answer, begun, build, commit, delivered, draw_time,
  in_transaction, on_store, or_draw_time, or_draw_uuid, produce, require_tz, tick, transact,
}

-- Every row of the run has the status.
abbrev pub IsEnded : String → String → World → Type 0
IsEnded id status w = All (λ (r : Run). (is_run id r ≡ false) ⊎ (r.status ≡ status)) w.store.runs

-- An alert for the run is there.
abbrev pub IsAlerted : String → World → Type 0
IsAlerted id w = any (λ (a : Alert). a.run_id == id) w.store.alerts ≡ true

-- The event log has a row at the place of the message.
abbrev pub IsLogged : Message → World → Type 0
IsLogged m w =
    any (same_position (event_of m.value m.topic (pos m.partition) (pos m.offset))) w.store.events
    ≡ true

-- The last message of the broker's log, which the event log has too.
pub record IsPublished (topic key : String) (envelope : Envelope) (w : World) : Type 0 where
  pub message : Message
  pub earlier : List Message
  pub sent : w.messages ≡ message ∷ earlier
  pub on_topic : message.topic ≡ topic
  pub with_key : message.key ≡ key
  pub of_envelope : message.value ≡ envelope
  pub logged : IsLogged message w

runs-closed :
    (id status : String) (t : ℕ) (rs : List Run)
    → All (λ (r : Run). (is_run id r ≡ false) ⊎ (r.status ≡ status)) (map (closed id status t) rs)
runs-closed id status t [] = tt
runs-closed id status t (r ∷ rs) = (of_test (is_run id r) refl, runs-closed id status t rs)
  where
    of_test :
        (b : Bool)
        → is_run id r ≡ b
        → (is_run id (closed id status t r) ≡ false) ⊎ ((closed id status t r).status ≡ status)
    of_test true q = inr (rw q refl)
    of_test false q = inl (ground (arith, q))

position_is_there :
    (e : Envelope) (topic : String) (p n : ℤ) (db : Db) (b : Bool) (db' : Db)
    → append_event e topic p n db ≡ (ok b, db')
    → any (same_position (event_of e topic p n)) db'.events ≡ true
unfolding append_event
position_is_there e topic p n db b db' h =
    ground (arith, eq_refl topic, (eqb_ℤ_iff p p).1 refl, (eqb_ℤ_iff n n).1 refl)

-- A call whose handler does not return the answer has returned it itself.
pub catch_ok :
    {A : Type 0} (m : Exec World A) (handler : Error → Exec World A) (w : World) {a : A} {u : World}
    → ((e : Error) (v : World) → handler e v ≡ (ok a, u) → ⊥)
    → catch m handler w ≡ (ok a, u)
    → m w ≡ (ok a, u)
catch_ok {A = A} m handler w {a = a} {u = u} never h = of_first (m w).0 (m w).1 h
  where
    of_first :
        (r : Result A) (v : World)
        → handled (r, v) handler ≡ (ok a, u)
        → ◌≡◌ {A = Result A × World} (r, v) (ok a, u)
    of_first (ok x) v q = q
    of_first (err e) v q = absurd (never e v q)

module _ (env : Env) where
  -- A transaction that returns has run its body to the end and committed.
  pub transact_ok :
      {A : Type 0} (body : Exec World A) (w : World) {a : A} {u : World}
      → transact env body w ≡ (ok a, u)
      → body (begun env (tick w)) ≡ (ok a, u)
  unfolding transact
  transact_ok {A = A} body w {a = a} {u = u} h = of_fault (env.fault w.ticks) h
    where
      of_passed :
          (f : Fault) (b : Bool) (x : A) (v : World)
          → ◌≡◌ {A = Result A × World}
              (if b
                then (answer env f x, v)
                else (err (violation "pipeline_run_requires_event"), record v { store = w.store }))
              (ok a, u)
          → ◌≡◌ {A = Result A × World} (ok x, v) (ok a, u)
      of_passed f false x v h = cc
      of_passed Fault.fine true x v h = h
      of_passed Fault.lost true x v h = h
      of_passed Fault.unacked true x v h = cc

      of_result :
          (f : Fault) (r : Result A) (v : World)
          → commit env f w.store r v ≡ (ok a, u)
          → ◌≡◌ {A = Result A × World} (r, v) (ok a, u)
      of_result f (ok x) v h = of_passed f (trigger_passes v.store) x v h
      of_result f (err e) v h = cc

      of_fault :
          (f : Fault)
          → in_transaction env f body (tick w) ≡ (ok a, u)
          → body (begun env (tick w)) ≡ (ok a, u)
      of_fault Fault.fine h =
          of_result Fault.fine (body (begun env (tick w))).0 (body (begun env (tick w))).1 h
      of_fault Fault.lost h = cc
      of_fault Fault.unacked h =
          of_result Fault.unacked (body (begun env (tick w))).0 (body (begun env (tick w))).1 h

  -- A call of the producer that returns has put the message at the place that it returns.
  pub produce_ok :
      (topic : String) (e : Envelope) (key : String) (w : World) {p n : ℕ} {u : World}
      → produce env topic e key w ≡ (ok (p, n), u)
      → u.messages
        ≡ record { topic = topic; key = key; value = e; partition = p; offset = n } ∷ w.messages
  unfolding produce
  produce_ok topic e key w {p = p} {n = n} {u = u} h = of_fault (env.fault w.ticks) h
    where
      of_fault :
          (f : Fault)
          → delivered env f topic key e (tick w) ≡ (ok (p, n), u)
          → u.messages
            ≡ record { topic = topic; key = key; value = e; partition = p; offset = n } ∷ w.messages
      of_fault Fault.fine h = cc
      of_fault Fault.lost h = cc
      of_fault Fault.unacked h = cc

  pub append_ok :
      (e : Envelope) (topic : String) (p n : ℤ) (w : World) {b : Bool} {u : World}
      → on_store (append_event e topic p n) w ≡ (ok b, u)
      → (u.messages ≡ w.messages)
        × (any (same_position (event_of e topic p n)) u.store.events ≡ true)
  append_ok e topic p n w {b = b} {u = u} h =
      subst
        (λ (r : Result Bool × World).
          (r.1.messages ≡ w.messages)
          × (any (same_position (event_of e topic p n)) r.1.store.events ≡ true))
        h
        (
          refl,
          position_is_there e topic p n w.store b (append_event e topic p n w.store).1
              (ap (λ (r : Result Bool × World). (r.0, (append_event e topic p n w.store).1)) h),
        )

  pub close_ok :
      (id status : String) (t : ℕ) (w : World) {u : World}
      → on_store (close_run id status t) w ≡ (ok tt, u)
      → (u.messages ≡ w.messages)
        × (u.store.events ≡ w.store.events)
        × (u.store.alerts ≡ w.store.alerts)
        × (u.store.cdc_checkpoints ≡ w.store.cdc_checkpoints)
        × IsEnded id status u
  unfolding close_run
  close_ok id status t w h =
      subst
        (λ (r : Result (Unit {0}) × World).
          (r.1.messages ≡ w.messages)
          × (r.1.store.events ≡ w.store.events)
          × (r.1.store.alerts ≡ w.store.alerts)
          × (r.1.store.cdc_checkpoints ≡ w.store.cdc_checkpoints)
          × IsEnded id status r.1)
        h (refl, refl, refl, refl, runs-closed id status t w.store.runs)

  alert_is_there :
      (a : Alert) (db : Db) {u : Unit {0}} {db' : Db}
      → raise_alert a db ≡ (ok u, db')
      → (db'.events ≡ db.events) × (any (λ (x : Alert). x.run_id == a.run_id) db'.alerts ≡ true)
  unfolding raise_alert
  alert_is_there a db h = (ground arith, ground (arith, eq_refl a.run_id))

  pub raise_ok :
      (a : Alert) (w : World) {x : Unit {0}} {u : World}
      → on_store (raise_alert a) w ≡ (ok x, u)
      → (u.messages ≡ w.messages) × (u.store.events ≡ w.store.events) × IsAlerted a.run_id u
  raise_ok a w {x = x} h =
      let (events, there) =
        alert_is_there a w.store {u = x} {db' = (raise_alert a w.store).1}
          (ap (λ (r : Result (Unit {0}) × World). (r.0, (raise_alert a w.store).1)) h) in
      subst
        (λ (r : Result (Unit {0}) × World).
          (r.1.messages ≡ w.messages)
          × (r.1.store.events ≡ w.store.events)
          × IsAlerted a.run_id r.1)
        h (refl, events, there)

  pub time_ok :
      (w : World) {t : ℕ} {u : World}
      → draw_time env w ≡ (ok t, u)
      → (u.messages ≡ w.messages) × (u.store ≡ w.store)
  unfolding draw_time
  time_ok w h = (cc, cc)

  -- An envelope that is built has the run of its draft.
  pub build_ok :
      (d : Draft) (w : World) {e : Envelope} {u : World}
      → build env d w ≡ (ok e, u)
      → e.run_id ≡ d.run_id
  unfolding build
  build_ok d w h =
      let (id, w1, q1, h1) = bind_ok (or_draw_uuid env d.event_id) _ w h in
      let (t, w2, q2, h2) = bind_ok (or_draw_time env d.occurred_at) _ w1 h1 in
      let (ref, w3, q3, h3) = bind_ok (lift (non_empty_ref d.trigger_event_ref)) _ w2 h2 in
      let (instant, w4, q4, h4) = bind_ok (lift (require_tz env t)) _ w3 h3 in
      let (digest, w5, q5, h5) = bind_ok (lift (well_formed_hash (env.hash d.payload))) _ w4 h4 in
      ap (λ (e : Envelope). e.run_id) (sym (ok_inj (ap (λ (r : Result Envelope × World). r.0) h5)))
