-- ===== src/Excel/Trigger/Runs.antt =====
-- What the conf of a run carries to the tasks of the validation, and when a message is done with.
use fintech_data_platform.Prelude.{
  String, ◌≡◌, refl, ap, if_elim, ℕ, suc, sym, subst, ◌∙◌, ◌⊎◌, inl, inr, Bool, true, false, Option,
  none, some, List, [], ◌∷◌, arith, if◌then◌else◌,
}
use fintech_data_platform.Prelude.Text.{concat, is_blank}
use fintech_data_platform.Json.{Value, str, obj, Fields, end, dict, get, or_else}
use fintech_data_platform.Library.{Library, get_item, item, str_of}
use fintech_data_platform.Exec.{
  Keeps, keeps_rules, Result, bind_ok, lift, chain_ok, err, ok, ok_inj, ◌>>>◌,
}
use fintech_data_platform.Consumer.{Delivered, Outcome}
use fintech_data_platform.Excel.Tasks.{Validation, parse_conf}
use fintech_data_platform.Excel.Trigger.{
  Airflow, Post, Posts, build_dag_run_payload, default_schema_contract_id, is_started,
  answered_with, ask_token, build_logical_date, date_of, fetch_api_bearer_token, prepare_run,
  prepared, process_scanned, request_run, requested, scanned_value, scanned_loaded, scanned_bytes,
  trigger_dag_run,
}

-- The conf carries the ids of the event and the place of its object.
pub record Carries (envelope conf : Fields) : Type 0 where
  pub run_id : item "run_id" (obj conf) ≡ item "run_id" (obj envelope)
  pub trace_id : item "trace_id" (obj conf) ≡ item "trace_id" (obj envelope)
  pub ref : item "trigger_event_ref" (obj conf) ≡ item "trigger_event_ref" (obj envelope)
  pub bucket : item "bucket" (obj conf) ≡ item "bucket" (or_else (get "payload" envelope) (obj end))
  pub object_key :
      item "object_key" (obj conf) ≡ item "object_key" (or_else (get "payload" envelope) (obj end))

abbrev conf_of : Value → Value → Value → Value → Value → Value → Fields
conf_of run_id trace_id ref bucket object_key contract_id = dict (
    ("run_id", run_id)
    ∷ ("trace_id", trace_id)
    ∷ ("trigger_event_ref", ref)
    ∷ ("bucket", bucket)
    ∷ ("object_key", object_key)
    ∷ ("schema_contract_id", or_else contract_id (str default_schema_contract_id))
    ∷ [])

module _ (v : Validation) (envelope : Fields) where
  abbrev IsTaken : Fields → Type 0
  IsTaken conf = (parse_conf v conf ≡ ok conf) × Carries envelope conf

  -- The conf that the trigger makes of an event passes the first task of the validation as it is,
  -- and carries the event's ids and the place of its object.
  pub conf_round_trip :
      (conf : Fields)
      → build_dag_run_payload envelope ≡ ok conf
      → (parse_conf v conf ≡ ok conf) × Carries envelope conf
  unfolding build_dag_run_payload parse_conf
  conf_round_trip conf h =
      let (bucket, (bucket_eq, h1)) =
        chain_ok (item "bucket" (or_else (get "payload" envelope) (obj end))) _ h in
      let (key, (key_eq, h2)) =
        chain_ok (item "object_key" (or_else (get "payload" envelope) (obj end))) _ h1 in
      let (contract, (contract_eq, h3)) =
        chain_ok (get_item "schema_contract_id" (or_else (get "payload" envelope) (obj end))) _
          h2 in
      let (run_id, (run_eq, h4)) = chain_ok (item "run_id" (obj envelope)) _ h3 in
      let (trace_id, (trace_eq, h5)) = chain_ok (item "trace_id" (obj envelope)) _ h4 in
      let (ref, (ref_eq, h6)) = chain_ok (item "trigger_event_ref" (obj envelope)) _ h5 in
      subst IsTaken (ok_inj h6) (
        refl,
        record {
          run_id = sym run_eq;
          trace_id = sym trace_eq;
          ref = sym ref_eq;
          bucket = sym bucket_eq;
          object_key = sym key_eq;
        },
      )

module _ (airflow : Airflow) (lib : Library) where
  -- What is asked before the run is posted leaves the answered posts as they are.
  abbrev Has : List Post → Posts → Type 0
  Has posts w = w.answered ≡ posts

  date_of-Has : (posts : List Post) (v : Value) → Keeps (Has posts) (date_of airflow v)
  date_of-Has posts (str s) = record {
    at = λ w h.
        if_elim (λ (r : Result String × Posts). r.1.answered ≡ posts) (is_blank s) _ _ (λ _. h)
          (λ _. h);
  }
  date_of-Has posts _ = record { at = λ w h. h }

  prepare_run-Has :
      (posts : List Post) (fs : Fields) → Keeps (Has posts) (prepare_run airflow lib fs)
  unfolding prepare_run build_logical_date
  prepare_run-Has posts fs = search (keeps_rules, date_of-Has) depth 12

  ask_token-Has : (posts : List Post) → Keeps (Has posts) (ask_token airflow)
  ask_token-Has posts = record { at = λ w h. h }

  token-Has : (posts : List Post) → Keeps (Has posts) (fetch_api_bearer_token airflow lib)
  unfolding fetch_api_bearer_token
  token-Has posts = search (keeps_rules, ask_token-Has) depth 16

  -- The date of a run is the event's time, if that is a text that is not blank, or the clock's.
  abbrev pub IsDateOf : Value → String → Type 0
  IsDateOf v day = (v ≡ str day) ⊎ ((n : ℕ) × (day ≡ airflow.now_text n))

  date_of-IsDateOf :
      (v : Value) (w : Posts) {day : String} {u : Posts}
      → date_of airflow v w ≡ (ok day, u)
      → IsDateOf v day
  date_of-IsDateOf (str s) w {day = day} {u = u} h = split (is_blank s) h
    where
      split :
          (b : Bool)
          → ◌≡◌ {A = Result String × Posts}
              (if b
                then (ok (airflow.now_text w.ticks), record w { ticks = suc w.ticks })
                else (ok s, w))
              (ok day, u)
          → IsDateOf (str s) day
      split true q = inr (w.ticks, sym (ok_inj (ap (λ (r : Result String × Posts). r.0) q)))
      split false q = inl (ap str (ok_inj (ap (λ (r : Result String × Posts). r.0) q)))
  date_of-IsDateOf _ w h = inr (w.ticks, sym (ok_inj (ap (λ (r : Result String × Posts). r.0) h)))

  -- The run that an event asks for: its id is that of the event's run, its date and its conf are
  -- those of the event.
  pub record IsRunOf (fs : Fields) (id day : String) (conf : Fields) : Type 0 where
    pub run_id : Value
    pub has_run_id : item "run_id" (obj fs) ≡ ok run_id
    pub named : id ≡ concat ("excel_validation__" ∷ str_of lib run_id ∷ [])
    pub dated : IsDateOf (get "occurred_at" fs) day
    pub carried : build_dag_run_payload fs ≡ ok conf

  prepare_run-IsRunOf :
      (fs : Fields) (w : Posts) {id day : String} {conf : Fields} {u : Posts}
      → prepare_run airflow lib fs w ≡ (ok (id, day, conf), u)
      → IsRunOf fs id day conf
  unfolding prepare_run build_logical_date
  prepare_run-IsRunOf fs w {id = id} {day = day} {conf = conf} h =
      let (conf', u1, q1, h1) = bind_ok (lift (build_dag_run_payload fs)) _ w h in
      let (day', u2, q2, h2) = bind_ok (build_logical_date airflow fs) _ u1 h1 in
      let (run_id, u3, q3, h3) = bind_ok (lift (item "run_id" (obj fs))) _ u2 h2 in
      let same = ok_inj (ap (λ (r : Result (String × String × Fields) × Posts). r.0) h3) in
      record {
        run_id = run_id;
        has_run_id = ap (λ (r : Result Value × Posts). r.0) q3;
        named = ap (λ (t : String × String × Fields). t.0) (sym same);
        dated =
            subst (IsDateOf (get "occurred_at" fs))
              (ap (λ (t : String × String × Fields). t.1) same)
              (date_of-IsDateOf (get "occurred_at" fs) u1 q2);
        carried =
            ap (λ (r : Result Fields × Posts). r.0) q1
            ∙ ap (λ (t : String × String × Fields). ok t.2) same;
      }

  abbrev post_of : String → String → Fields → ℕ → Post
  post_of id day conf status = record {
    dag_run_id = id;
    logical_date = day;
    conf = conf;
    status = status;
  }

  -- A post of the run of the event stands before what was answered at `w`, with a status that
  -- Airflow gave for the id of that run: one of a run that is started or there, or one that
  -- `requests` does not raise for.
  pub record IsPosted (fs : Fields) (w x : Posts) : Type 0 where
    pub post : Post
    pub run : IsRunOf fs post.dag_run_id post.logical_date post.conf
    pub posted : x.answered ≡ post ∷ w.answered
    pub asked : (n : ℕ) × (airflow.post_run n post.dag_run_id ≡ ok post.status)
    pub accepted : (is_started post.status ≡ true) ⊎ (airflow.raise_for_status post.status ≡ ok tt)

  answered-IsPosted :
      (fs conf : Fields) (id day : String) (w u : Posts) (n : ℕ) (r : Result ℕ) {b : Bool}
      {x : Posts}
      → IsRunOf fs id day conf
      → u.answered ≡ w.answered
      → airflow.post_run n id ≡ r
      → answered_with airflow id day conf r u ≡ (ok b, x)
      → IsPosted fs w x
  answered-IsPosted fs conf id day w u n (ok status) {b = b} {x = x} c same asked h = record {
    post = post_of id day conf status;
    run = c;
    asked = (n, asked);
    posted =
        sym (ap (λ (r : Result Bool × Posts). r.1.answered) h)
        ∙ ap (◌∷◌ (post_of id day conf status)) same;
    accepted = of_status (is_started status) refl (ap (λ (r : Result Bool × Posts). r.0) h);
  }
    where
      of_status :
          (s : Bool)
          → is_started status ≡ s
          → (if s then ok true else airflow.raise_for_status status >>> λ _. ok false) ≡ ok b
          → (is_started status ≡ true) ⊎ (airflow.raise_for_status status ≡ ok tt)
      of_status true q h = inl q
      of_status false q h = inr (chain_ok (airflow.raise_for_status status) (λ _. ok false) h).1.0
  answered-IsPosted fs conf id day w u n (err e) c same asked h = cc

  request_run-IsPosted :
      (fs : Fields) (w u : Posts) (run : String × String × Fields) {b : Bool} {x : Posts}
      → IsRunOf fs run.0 run.1 run.2
      → u.answered ≡ w.answered
      → request_run airflow lib run u ≡ (ok b, x)
      → IsPosted fs w x
  unfolding trigger_dag_run
  request_run-IsPosted fs w u (id, day, conf) c same h =
      let (token, u1, q1, h1) = bind_ok (fetch_api_bearer_token airflow lib) _ u h in
      answered-IsPosted fs conf id day w (record u1 { ticks = suc u1.ticks }) u1.ticks
        (airflow.post_run u1.ticks id) c
        (subst (λ (r : Result String × Posts). r.1.answered ≡ w.answered) q1
          ((token-Has w.answered).at u same))
        refl h1

  of_prepared :
      (fs : Fields) (w : Posts) (r : Result (String × String × Fields) × Posts)
      → prepare_run airflow lib fs w ≡ r
      → (prepared airflow lib r).0 ≡ Outcome.handled
      → IsPosted fs w (prepared airflow lib r).1
  of_prepared fs w (err e, u) q h = absurd (ground arith)
  of_prepared fs w (ok run, u) q h = of_request (request_run airflow lib run u) refl h
    where
      of_request :
          (r : Result Bool × Posts)
          → request_run airflow lib run u ≡ r
          → (requested airflow lib r).0 ≡ Outcome.handled
          → IsPosted fs w (requested airflow lib r).1
      of_request (ok b, x) p h =
          request_run-IsPosted fs w u run (prepare_run-IsRunOf fs w q)
            (subst (λ (r : Result (String × String × Fields) × Posts). r.1.answered ≡ w.answered) q
              ((prepare_run-Has w.answered fs).at w refl))
            p
      of_request (err e, x) p h = cc

  of_value :
      (v : Value) (w : Posts)
      → (scanned_value airflow lib v w).0 ≡ Outcome.handled
      → (fs : Fields) × (v ≡ obj fs) × IsPosted fs w (scanned_value airflow lib v w).1
  of_value (obj fs) w h = (fs, refl, of_prepared fs w (prepare_run airflow lib fs w) refl h)
  of_value _ w h = cc

  of_loaded :
      (r : Result Value) (w : Posts)
      → (scanned_loaded airflow lib r w).0 ≡ Outcome.handled
      → (fs : Fields) × (r ≡ ok (obj fs)) × IsPosted fs w (scanned_loaded airflow lib r w).1
  of_loaded (ok v) w h = let (fs, q, posted) = of_value v w h in (fs, ap ok q, posted)
  of_loaded (err e) w h = absurd (ground arith)

  of_bytes :
      (o : Option String) (w : Posts)
      → (scanned_bytes airflow lib o w).0 ≡ Outcome.handled
      → (text : String) × (fs : Fields) × (o ≡ some text)
        × (lib.loads text ≡ ok (obj fs))
        × IsPosted fs w (scanned_bytes airflow lib o w).1
  of_bytes none w h = cc
  of_bytes (some text) w h =
      let (fs, q, posted) = of_loaded (lib.loads text) w h in (text, fs, refl, q, posted)

  -- A message that the loop commits as handled is an event for which one request more is answered
  -- than before: for the run whose id has the event's run id, with the event's date or the clock's and
  -- the conf of the event, and with a status that Airflow gave for that id, of a run that is started
  -- or is there already, or another that `requests` takes for no error.
  pub handled-IsPosted :
      (m : Delivered) (w : Posts)
      → (process_scanned airflow lib m w).0 ≡ Outcome.handled
      → (text : String) × (fs : Fields) × (m.value ≡ some text)
        × (lib.loads text ≡ ok (obj fs))
        × IsPosted fs w (process_scanned airflow lib m w).1
  unfolding process_scanned
  handled-IsPosted m w h = of_bytes m.value w h
