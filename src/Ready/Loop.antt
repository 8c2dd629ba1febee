-- ===== src/Ready/Loop.antt =====
-- services/workers/excel_bronze_writer/main.py and services/workers/salesforce_bronze_writer/main.py:
-- the body of `run` for one message, and what it keeps.
use fintech_data_platform.Prelude.{ℕ, Bool, Option, none, some, String, if◌then◌else◌}
use fintech_data_platform.Json.{Value, obj, Fields}
use fintech_data_platform.Exec.{Error, ErrorKind, Exec, Keeps, Result, err, ok}
use fintech_data_platform.World.{Env, World}
use fintech_data_platform.World.Committed.{IsStored}
use fintech_data_platform.Consumer.{Delivered, Outcome}
use fintech_data_platform.Ready.Excel.{Converter, handle_excel_ready, is_retryable}

-- A retryable error leaves the offset as it is; after another error it is committed.
abbrev pub ended : Result Bool × World → Outcome × World
ended (ok done, w) = (Outcome.handled, w)
ended (err e, w) = (if is_retryable e then Outcome.failed else Outcome.dropped, w)

-- `json.loads` raises `JSONDecodeError`, or, for bytes of no encoding, another error, which is not
-- caught.
abbrev pub undecoded : Error → Outcome
undecoded e = elim e.kind [ ErrorKind.json_decode_error ↦ Outcome.dropped | _ ↦ Outcome.crashed ]

module _ (env : Env) (handler : Fields → ℕ → ℕ → Exec World Bool) (m : Delivered) where
  -- What is no dict raises at the first use.
  abbrev ready_value : Value → World → Outcome × World
  ready_value (obj fs) w = ended (handler fs m.partition m.offset w)
  ready_value v w = (Outcome.dropped, w)

  abbrev ready_loaded : Result Value → World → Outcome × World
  ready_loaded (ok v) w = ready_value v w
  ready_loaded (err e) w = (undecoded e, w)

  -- A tombstone is no text that `json.loads` takes.
  abbrev ready_bytes : Option String → World → Outcome × World
  ready_bytes (some text) w = ready_loaded (env.library.loads text) w
  ready_bytes none w = (Outcome.crashed, w)

-- One message of the loop.
unfoldable pub process_ready :
    Env → (Fields → ℕ → ℕ → Exec World Bool) → Delivered → World → Outcome × World
process_ready env handler m w = ready_bytes env handler m m.value w

ended-IsStored : (r : Result Bool × World) → IsStored r.1 → IsStored (ended r).1
ended-IsStored (ok done, w) h = h
ended-IsStored (err e, w) h = h

module _ (env : Env) (handler : Fields → ℕ → ℕ → Exec World Bool)
    (kept : (fs : Fields) (p n : ℕ) → Keeps IsStored (handler fs p n)) (m : Delivered) where
  ready_value-IsStored :
      (v : Value) (w : World) → IsStored w → IsStored (ready_value env handler m v w).1
  ready_value-IsStored (obj fs) w h =
      ended-IsStored (handler fs m.partition m.offset w) ((kept fs m.partition m.offset).at w h)
  ready_value-IsStored _ w h = h

  ready_loaded-IsStored :
      (r : Result Value) (w : World) → IsStored w → IsStored (ready_loaded env handler m r w).1
  ready_loaded-IsStored (ok v) w h = ready_value-IsStored v w h
  ready_loaded-IsStored (err e) w h = h

  ready_bytes-IsStored :
      (o : Option String) (w : World) → IsStored w → IsStored (ready_bytes env handler m o w).1
  ready_bytes-IsStored (some text) w h = ready_loaded-IsStored (env.library.loads text) w h
  ready_bytes-IsStored none w h = h

pub process_ready-IsStored :
    (env : Env) (handler : Fields → ℕ → ℕ → Exec World Bool)
    → ((fs : Fields) (p n : ℕ) → Keeps IsStored (handler fs p n))
    → (m : Delivered) (w : World) → IsStored w
    → IsStored (process_ready env handler m w).1
unfolding process_ready
process_ready-IsStored env handler kept m w h = ready_bytes-IsStored env handler kept m m.value w h

-- the handler of the Excel writer, which does not use the place of the message
abbrev pub excel_handler : Env → Converter → Fields → ℕ → ℕ → Exec World Bool
excel_handler env converter fs partition offset = handle_excel_ready env converter fs
