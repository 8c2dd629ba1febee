-- ===== src/Ready/Recorded.antt =====
-- What the Excel writer has done when it returns that an event is handled.
use fintech_data_platform.Prelude.{
  ℕ, String, ◌≡◌, refl, ap, subst, ◌∙◌, Bool, true, false, any, if◌then◌else◌,
}
use fintech_data_platform.Prelude.Int.{pos}
use fintech_data_platform.Json.{Fields, get}
use fintech_data_platform.Envelope.{Envelope}
use fintech_data_platform.Exec.{
  Error, Result, bind_ok, catch, continue, lift, ok, pure, raise, ◌>>=◌, ◌>>>◌,
}
use fintech_data_platform.EventStore.{append_event, event_of, raise_alert, same_position}
use fintech_data_platform.World.{
  Env, World, begun, build, draw_time, on_store, produce, tick, transact,
}
use fintech_data_platform.World.Published.{
  IsEnded, IsPublished, append_ok, build_ok, catch_ok, close_ok, produce_ok, time_ok, transact_ok,
}
use fintech_data_platform.Lake.{read_uri, write_uri}
use fintech_data_platform.Ready.Uris.{excel_bronze_uri}
use fintech_data_platform.Ready.Excel.{
  Converter, Header, end_run, excel_draft, excel_failed, excel_report, finalize_excel, first_uri,
  handle_excel_ready, is_retryable, read_header, record_excel, record_failure, report_failure,
  retryable, uri_text, write_converted, write_excel_bronze,
}

module _ (env : Env) where
  report_is_false :
      (h : Header) (category summary : String) (details : Fields) (w : World) {u : World}
      → report_failure env h category summary details w ≡ (ok true, u)
      → ⊥
  unfolding report_failure
  report_is_false h category summary details w q =
      let body = transact_ok env (record_failure env h category summary details) w (
        catch_ok (transact env (record_failure env h category summary details)) (λ e. pure false) w
          (λ e v f. absurd cc) q) in
      let (at, u1, q1, h1) = bind_ok (draw_time env) _ (begun env (tick w)) body in
      let (alerted, u2, q2, h2) = bind_ok (on_store (raise_alert _)) _ u1 h1 in
      let (ended, u3, q3, h3) = bind_ok (end_run env h "failed") _ u2 h2 in absurd cc

  finalized :
      (h : Header) (e : Envelope) (p n : ℕ) (w : World) {u : World}
      → finalize_excel env h e (p, n) w ≡ (ok true, u)
      → (u.messages ≡ w.messages)
        × (any
              (same_position (event_of e "ingest.excel.bronze.ready.v1" (pos p) (pos n)))
              u.store.events
            ≡ true)
        × IsEnded h.run_id "completed" u
  unfolding finalize_excel
  finalized h e p n w {u = u} q =
      let (done, v, q1, h1) =
        bind_ok (catch (transact env (record_excel env h e (p, n))) (λ x. raise (retryable x))) _ w
          q in
      let body = transact_ok env (record_excel env h e (p, n)) w (
        catch_ok (transact env (record_excel env h e (p, n))) (λ x. raise (retryable x)) w
          (λ x v f. absurd cc) q1) in
      let (inserted, w1, p1, h2) =
        bind_ok (on_store (append_event e "ingest.excel.bronze.ready.v1" (pos p) (pos n))) _
          (begun env (tick w)) body in
      let (t, w2, p2, h3) = bind_ok (draw_time env) _ w1 h2 in
      let (sent1, logged) = append_ok env e "ingest.excel.bronze.ready.v1" (pos p) (pos n) _ p1 in
      let (sent2, store2) = time_ok env w1 p2 in
      let (sent3, events, alerts, checkpoints, ended) = close_ok env h.run_id "completed" t w2 h3 in
      let same : v ≡ u = cc in
      subst
        (λ (x : World).
          (x.messages ≡ w.messages)
          × (any (same_position (event_of e "ingest.excel.bronze.ready.v1" (pos p) (pos n)))
                x.store.events
              ≡ true)
          × IsEnded h.run_id "completed" x)
        same
        (
          sent3 ∙ sent2 ∙ sent1,
          ap (any (same_position (event_of e "ingest.excel.bronze.ready.v1" (pos p) (pos n))))
                (events ∙ ap (λ db. db.events) store2)
              ∙ logged,
          ended,
        )

  published :
      (h : Header) (raw_uri bytes fingerprint : String) (count : ℕ) (w : World) {u : World}
      → write_converted env h raw_uri (bytes, count, fingerprint) w ≡ (ok true, u)
      → (e : Envelope) × (e.run_id ≡ h.run_id)
        × IsPublished "ingest.excel.bronze.ready.v1" h.run_id_text e u
        × IsEnded h.run_id "completed" u
  unfolding write_converted excel_draft
  published h raw_uri bytes fingerprint count w q =
      let (uri, w1, q1, h1) = bind_ok (lift (excel_bronze_uri env.library raw_uri)) _ w q in
      let (written, w2, q2, h2) = bind_ok (write_uri env uri bytes) _ w1 h1 in
      let (e, w3, q3, h3) =
        bind_ok (build env (excel_draft env h raw_uri uri count fingerprint)) _ w2 h2 in
      let ((p, n), w4, q4, h4) =
        bind_ok (produce env "ingest.excel.bronze.ready.v1" e h.run_id_text) _ w3 h3 in
      let (sent, logged, ended) = finalized h e p n w4 h4 in
      (
        e,
        build_ok env (excel_draft env h raw_uri uri count fingerprint) w2 q3,
        record {
          message = record {
            topic = "ingest.excel.bronze.ready.v1";
            key = h.run_id_text;
            value = e;
            partition = p;
            offset = n;
          };
          earlier = w3.messages;
          sent = sent ∙ produce_ok env "ingest.excel.bronze.ready.v1" e h.run_id_text w3 q4;
          on_topic = refl;
          with_key = refl;
          of_envelope = refl;
          logged = logged;
        },
        ended,
      )

  not_reported :
      (h : Header) (e : Error) (w : World) {u : World} → excel_failed env h e w ≡ (ok true, u) → ⊥
  not_reported h e w {u = u} q = split (is_retryable e) q
    where
      split :
          (b : Bool)
          → ◌≡◌ {A = Result Bool × World}
              ((if b
                  then raise e
                  else lift (first_uri (get "output_uris" h.payload)) >>= excel_report env h e)
                w)
              (ok true, u)
          → ⊥
      split true f = absurd cc
      split false f =
          let (uri, v, p, g) =
            bind_ok (lift (first_uri (get "output_uris" h.payload))) (excel_report env h e) w f in
          report_is_false h _ _ _ v g

  -- When the Excel writer's handler returns true, the last message of the broker is a bronze.ready
  -- event of the run of the event, under the key of that run, the event log has a row at the place
  -- of that message, and every row of the run is completed.
  pub handled_event_is_recorded :
      (converter : Converter) (fields : Fields) (h : Header) (w u : World)
      → read_header env.library fields ≡ ok h
      → handle_excel_ready env converter fields w ≡ (ok true, u)
      → (e : Envelope) × (e.run_id ≡ h.run_id)
        × IsPublished "ingest.excel.bronze.ready.v1" h.run_id_text e u
        × IsEnded h.run_id "completed" u
  unfolding handle_excel_ready write_excel_bronze
  handled_event_is_recorded converter fields h w u read q =
      let body =
        catch_ok (write_excel_bronze env converter h) (excel_failed env h) w
          (λ e v. not_reported h e v)
          (subst
            (λ (r : Result Header).
              continue r (λ h. catch (write_excel_bronze env converter h) (excel_failed env h)) w
              ≡ (ok true, u))
            read q) in
      let (raw_uri, w1, q1, h1) =
        bind_ok (lift (first_uri (get "output_uris" h.payload) >>> uri_text)) _ w body in
      let (xlsx, w2, q2, h2) = bind_ok (read_uri env raw_uri) _ w1 h1 in
      let ((bytes, count, fingerprint), w3, q3, h3) =
        bind_ok (lift (converter.to_parquet xlsx)) _ w2 h2 in
      published h raw_uri bytes fingerprint count w3 h3
