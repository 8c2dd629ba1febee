-- ===== src/Bronze/Recorded.antt =====
-- What the bronze writer has done when it has published a batch.
use fintech_data_platform.Prelude.{
  ℕ, String, ◌≡◌, refl, ap, subst, ◌∙◌, true, List, [], ◌∷◌, any, arith,
}
use fintech_data_platform.Prelude.Int.{pos}
use fintech_data_platform.Prelude.Text.{concat}
use fintech_data_platform.Envelope.{Envelope}
use fintech_data_platform.Exec.{Result, bind_ok, ok}
use fintech_data_platform.EventStore.{
  CdcCheckpoint, Db, append_cdc_checkpoint, append_event, event_of, same_position,
}
use fintech_data_platform.World.{Env, World, begun, draw_time, on_store, produce, tick}
use fintech_data_platform.World.Published.{
  IsEnded, IsPublished, append_ok, close_ok, produce_ok, time_ok, transact_ok,
}
use fintech_data_platform.Bronze.Batches.{PreparedBatch}
use fintech_data_platform.Bronze.Publish.{
  finalize_published_batch, recorded_batch, publish_prepared, published_checkpoint,
}

-- The newest checkpoint is of the run, and has the offsets, the number of rows and the table of the
-- batch.
pub record IsCheckpointed (b : PreparedBatch) (run_id : String) (w : World) : Type 0 where
  pub row : CdcCheckpoint
  pub older : List CdcCheckpoint
  pub newest : w.store.cdc_checkpoints ≡ row ∷ older
  pub of_run : row.run_id ≡ run_id
  pub of_table : row.source_table ≡ b.source_table
  pub from_offset : row.offset_start ≡ pos b.offset_start
  pub to_offset : row.offset_end ≡ pos b.offset_end
  pub counted : row.record_count ≡ b.record_count

checkpoint_is_newest :
    (c : CdcCheckpoint) (db : Db) {u : Unit {0}} {db' : Db}
    → append_cdc_checkpoint c db ≡ (ok u, db')
    → (db'.events ≡ db.events)
      × (db'.cdc_checkpoints ≡ record c { recorded_at = db.now } ∷ db.cdc_checkpoints)
unfolding append_cdc_checkpoint
checkpoint_is_newest c db h = (ground arith, ground arith)

checkpoint_ok :
    (c : CdcCheckpoint) (w : World) {x : Unit {0}} {u : World}
    → on_store (append_cdc_checkpoint c) w ≡ (ok x, u)
    → (u.messages ≡ w.messages)
      × (u.store.events ≡ w.store.events)
      × (u.store.cdc_checkpoints ≡ record c { recorded_at = w.store.now } ∷ w.store.cdc_checkpoints)
checkpoint_ok c w {x = x} h =
    let (events, newest) =
      checkpoint_is_newest c w.store {u = x} {db' = (append_cdc_checkpoint c w.store).1}
        (ap (λ (r : Result (Unit {0}) × World). (r.0, (append_cdc_checkpoint c w.store).1)) h) in
    subst
      (λ (r : Result (Unit {0}) × World).
        (r.1.messages ≡ w.messages)
        × (r.1.store.events ≡ w.store.events)
        × (r.1.store.cdc_checkpoints
            ≡ record c { recorded_at = w.store.now } ∷ w.store.cdc_checkpoints))
      h (refl, events, newest)

module _ (env : Env) (b : PreparedBatch) (run_id : String) where
  finalized :
      (e : Envelope) (p n : ℕ) (w : World) {x : Unit {0}} {u : World}
      → finalize_published_batch env b run_id e (p, n) w ≡ (ok x, u)
      → (u.messages ≡ w.messages)
        × (any
              (same_position (event_of e "cdc.oltp.bronze.ready.v1" (pos p) (pos n)))
              u.store.events
            ≡ true)
        × IsCheckpointed b run_id u
        × IsEnded run_id "completed" u
  unfolding finalize_published_batch published_checkpoint
  finalized e p n w h =
      let body = transact_ok env (recorded_batch env b run_id e p n) w h in
      let (inserted, w1, q1, h1) =
        bind_ok (on_store (append_event e "cdc.oltp.bronze.ready.v1" (pos p) (pos n))) _
          (begun env (tick w)) body in
      let (c, w2, q2, h2) =
        bind_ok (on_store (append_cdc_checkpoint (published_checkpoint env b run_id))) _ w1 h1 in
      let (t, w3, q3, h3) = bind_ok (draw_time env) _ w2 h2 in
      let (m1, logged) =
        append_ok env e "cdc.oltp.bronze.ready.v1" (pos p) (pos n) (begun env (tick w)) q1 in
      let (m2, e2, newest) = checkpoint_ok (published_checkpoint env b run_id) w1 q2 in
      let (m3, s3) = time_ok env w2 q3 in
      let (m4, e4, a4, c4, ended) = close_ok env run_id "completed" t w3 h3 in
      (
        m4 ∙ m3 ∙ m2 ∙ m1,
        ap (any (same_position (event_of e "cdc.oltp.bronze.ready.v1" (pos p) (pos n))))
              (e4 ∙ ap (λ db. db.events) s3 ∙ e2)
            ∙ logged,
        record {
          row = record (published_checkpoint env b run_id) { recorded_at = w1.store.now };
          older = w1.store.cdc_checkpoints;
          newest = c4 ∙ ap (λ db. db.cdc_checkpoints) s3 ∙ newest;
          of_run = refl;
          of_table = refl;
          from_offset = refl;
          to_offset = refl;
          counted = refl;
        },
        ended,
      )

  published :
      (e : Envelope) (w : World) {x : Unit {0}} {u : World}
      → publish_prepared env b (run_id, e) w ≡ (ok x, u)
      → IsPublished "cdc.oltp.bronze.ready.v1" (concat (b.source_table ∷ ":" ∷ run_id ∷ [])) e u
        × IsCheckpointed b run_id u
        × IsEnded run_id "completed" u
  published e w q =
      let key = concat (b.source_table ∷ ":" ∷ run_id ∷ []) in
      let ((p, n), w1, q1, h1) = bind_ok (produce env "cdc.oltp.bronze.ready.v1" e key) _ w q in
      let (m, logged, checkpointed, ended) = finalized e p n w1 h1 in
      (
        record {
          message = record {
            topic = "cdc.oltp.bronze.ready.v1";
            key = key;
            value = e;
            partition = p;
            offset = n;
          };
          earlier = w.messages;
          sent = m ∙ produce_ok env "cdc.oltp.bronze.ready.v1" e key w q1;
          on_topic = refl;
          with_key = refl;
          of_envelope = refl;
          logged = logged;
        },
        checkpointed,
        ended,
      )

module _ (env : Env) (b : PreparedBatch) where
  -- What a batch that is published has left, under the id of its run.
  pub record IsRecorded (w : World) : Type 0 where
    pub run_id : String
    pub published :
        IsPublished "cdc.oltp.bronze.ready.v1"
          (concat (b.source_table ∷ ":" ∷ run_id ∷ []))
          (record b.envelope { run_id = run_id })
          w
    pub checkpointed : IsCheckpointed b run_id w
    pub ended : IsEnded run_id "completed" w
