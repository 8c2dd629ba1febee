-- ===== src/Fraud/Loop.antt =====
-- services/workers/fraud_worker/main.py: the body of `run` for one message, and what any number of
-- turns of the loop leave.
use fintech_data_platform.Prelude.{String, Option, none, some, List}
use fintech_data_platform.Json.{Value, obj}
use fintech_data_platform.Exec.{Result, ok, err, Keeps}
use fintech_data_platform.World.{World, Env}
use fintech_data_platform.World.Committed.{IsStored}
use fintech_data_platform.Consumer.{Outcome, Delivered, Session, Turn, run, logged}
use fintech_data_platform.Consumer.Laws.{run_keeps}
use fintech_data_platform.Fraud.Handler.{handle}
use fintech_data_platform.Fraud.Safety.{handle-IsStored}
use fintech_data_platform.Fraud.Flags.{HasUniqueFlags, handle-flags}

-- What JSON holds beside a dict has no `get`: the handler raises before anything else.
abbrev handle_value : Env → Delivered → Option String → Value → World → Outcome × World
handle_value env m key (obj fs) w = logged (
    handle env
      (record {
        topic = m.topic;
        partition = m.partition;
        offset = m.offset;
        value = fs;
        key = key;
      })
      w)
handle_value env m key v w = (Outcome.failed, w)

-- The key is decoded outside the `try`.
abbrev keyed_value : Env → Delivered → Result (Option String) → Value → World → Outcome × World
keyed_value env m (ok key) v w = handle_value env m key v w
keyed_value env m (err e) v w = (Outcome.crashed, w)

abbrev decoded : Env → Delivered → Result Value → World → Outcome × World
decoded env m (ok v) w = keyed_value env m m.key v w
decoded env m (err e) w = (Outcome.dropped, w)

abbrev with_bytes : Env → Delivered → Option String → World → Outcome × World
with_bytes env m (some text) w = decoded env m (env.library.loads text) w
with_bytes env m none w = (Outcome.dropped, w)

-- One message of the loop.
unfoldable pub process_raw : Env → Delivered → World → Outcome × World
process_raw env m w = with_bytes env m m.value w

module _ (env : Env) (P : World → Type 0) (keeps : (raw : _) → Keeps P (handle env raw)) where
  logged-keeps : {A : Type 0} (r : Result A × World) → P r.1 → P (logged r).1
  logged-keeps (ok a, w) h = h
  logged-keeps (err e, w) h = h

  handle_value-keeps :
      (m : Delivered) (key : Option String) (v : Value) (w : World)
      → P w
      → P (handle_value env m key v w).1
  handle_value-keeps m key (obj fs) w h = logged-keeps (handle env _ w) ((keeps _).at w h)
  handle_value-keeps m key _ w h = h

  keyed_value-keeps :
      (m : Delivered) (key : Result (Option String)) (v : Value) (w : World)
      → P w
      → P (keyed_value env m key v w).1
  keyed_value-keeps m (ok key) v w h = handle_value-keeps m key v w h
  keyed_value-keeps m (err e) v w h = h

  decoded-keeps : (m : Delivered) (r : Result Value) (w : World) → P w → P (decoded env m r w).1
  decoded-keeps m (ok v) w h = keyed_value-keeps m m.key v w h
  decoded-keeps m (err e) w h = h

  with_bytes-keeps :
      (m : Delivered) (o : Option String) (w : World) → P w → P (with_bytes env m o w).1
  with_bytes-keeps m (some text) w h = decoded-keeps m (env.library.loads text) w h
  with_bytes-keeps m none w h = h

  process_raw-keeps : (m : Delivered) (w : World) → P w → P (process_raw env m w).1
  unfolding process_raw
  process_raw-keeps m w h = with_bytes-keeps m m.value w h

-- From a session where this holds, whatever the log of the raw topic, the polls, crashes and restarts, the ids and times drawn and
-- the failures of the outside services, the fraud worker leaves the event store well formed with
-- an event for every run, and at most one risk flag for a raw record.
pub fraud_worker_leaves :
    (env : Env) (log : List Delivered) (turns : List Turn) (s : Session World)
    → IsStored s.state
    → HasUniqueFlags s.state
    → IsStored (run (process_raw env) log turns s).state
      × HasUniqueFlags (run (process_raw env) log turns s).state
fraud_worker_leaves env log turns s stored flags = (
  run_keeps (process_raw env) log IsStored (process_raw-keeps env IsStored (handle-IsStored env))
      turns s stored,
  run_keeps (process_raw env) log HasUniqueFlags
      (process_raw-keeps env HasUniqueFlags (handle-flags env)) turns s flags,
)
