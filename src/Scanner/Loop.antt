-- ===== src/Scanner/Loop.antt =====
-- services/workers/excel_scanner/main.py: the body of `run` for one message, and what it keeps.
use fintech_data_platform.Prelude.{
  String, Bool, true, false, ◌||◌, Option, none, some, if◌then◌else◌,
}
use fintech_data_platform.Json.{Value, str, arr, obj, Items, nil, cons, get, truthy}
use fintech_data_platform.Exec.{Error, ErrorKind, Result, ok, err}
use fintech_data_platform.World.{World, Env}
use fintech_data_platform.World.Committed.{IsStored}
use fintech_data_platform.Consumer.{Outcome, Delivered}
use fintech_data_platform.Scanner.Gates.{ScannerConfig, Storage}
use fintech_data_platform.Scanner.Handler.{handle_record}
use fintech_data_platform.Scanner.Safety.{handle_record-IsStored}

abbrev has_raised : {A : Type 0} → Result A × World → Bool × World
has_raised (ok a, w) = (false, w)
has_raised (err e, w) = (true, w)

-- `json.loads` raises `JSONDecodeError`, or, for bytes of no encoding, another error, which is not
-- caught.
abbrev undecoded : Error → Outcome
undecoded e = elim e.kind [ ErrorKind.json_decode_error ↦ Outcome.dropped | _ ↦ Outcome.crashed ]

module _ (env : Env) (storage : Storage) (config : ScannerConfig) (m : Delivered) where
  -- A record that is no dict raises in `parse_minio_record`.
  abbrev scan_record : Value → World → Bool × World
  scan_record (obj fs) w =
      has_raised (handle_record env storage config fs m.topic m.partition m.offset w)
  scan_record v w = (true, w)

  -- Every record is tried; the result is whether one has failed.
  abbrev scan_records : Items → Bool → World → Bool × World
  scan_records nil failed w = (failed, w)
  scan_records (cons v vs) failed w =
      let (f, w') = scan_record v w in scan_records vs (failed || f) w'

  abbrev settled : Bool × World → Outcome × World
  settled (failed, w) = (if failed then Outcome.failed else Outcome.handled, w)

  -- `for record in records`, of a value that is true: the keys of a dict and the letters of a
  -- text are no dicts, and a number cannot be iterated over.
  abbrev scan_value : Value → World → Outcome × World
  scan_value (arr vs) w = settled (scan_records vs false w)
  scan_value (obj fs) w = (Outcome.failed, w)
  scan_value (str s) w = (Outcome.failed, w)
  scan_value v w = (Outcome.crashed, w)

  abbrev scan_notification : Value → World → Outcome × World
  scan_notification (obj fs) w =
      if truthy (get "Records" fs) then scan_value (get "Records" fs) w else (Outcome.handled, w)
  scan_notification v w = (Outcome.crashed, w)

  abbrev loaded : Result Value → World → Outcome × World
  loaded (ok v) w = scan_notification v w
  loaded (err e) w = (undecoded e, w)

  -- A tombstone is no text that `json.loads` takes.
  abbrev with_bytes : Option String → World → Outcome × World
  with_bytes (some text) w = loaded (env.library.loads text) w
  with_bytes none w = (Outcome.crashed, w)

-- One message of the loop.
unfoldable pub process_upload : Env → Storage → ScannerConfig → Delivered → World → Outcome × World
process_upload env storage config m w = with_bytes env storage config m m.value w

has_raised-IsStored : {A : Type 0} (r : Result A × World) → IsStored r.1 → IsStored (has_raised r).1
has_raised-IsStored (ok a, w) h = h
has_raised-IsStored (err e, w) h = h

branch-IsStored :
    (b : Bool) (x y : Outcome × World)
    → IsStored x.1
    → IsStored y.1
    → IsStored (if b then x else y).1
branch-IsStored true x y hx hy = hx
branch-IsStored false x y hx hy = hy

module _ (env : Env) (storage : Storage) (config : ScannerConfig) (m : Delivered) where
  scan_record-IsStored :
      (v : Value) (w : World) → IsStored w → IsStored (scan_record env storage config m v w).1
  scan_record-IsStored (obj fs) w h =
      has_raised-IsStored (handle_record env storage config fs m.topic m.partition m.offset w)
        ((handle_record-IsStored env storage config fs m.topic m.partition m.offset).at w h)
  scan_record-IsStored _ w h = h

  scan_records-IsStored :
      (vs : Items) (failed : Bool) (w : World)
      → IsStored w
      → IsStored (scan_records env storage config m vs failed w).1
  scan_records-IsStored nil failed w h = h
  scan_records-IsStored (cons v vs) failed w h =
      scan_records-IsStored vs _ _ (scan_record-IsStored v w h)

  scan_value-IsStored :
      (v : Value) (w : World) → IsStored w → IsStored (scan_value env storage config m v w).1
  scan_value-IsStored (arr vs) w h = scan_records-IsStored vs false w h
  scan_value-IsStored (obj fs) w h = h
  scan_value-IsStored (str s) w h = h
  scan_value-IsStored _ w h = h

  scan_notification-IsStored :
      (v : Value) (w : World) → IsStored w → IsStored (scan_notification env storage config m v w).1
  scan_notification-IsStored (obj fs) w h =
      branch-IsStored (truthy (get "Records" fs)) _ _ (scan_value-IsStored (get "Records" fs) w h) h
  scan_notification-IsStored _ w h = h

  loaded-IsStored :
      (r : Result Value) (w : World) → IsStored w → IsStored (loaded env storage config m r w).1
  loaded-IsStored (ok v) w h = scan_notification-IsStored v w h
  loaded-IsStored (err e) w h = h

  with_bytes-IsStored :
      (o : Option String) (w : World)
      → IsStored w
      → IsStored (with_bytes env storage config m o w).1
  with_bytes-IsStored (some text) w h = loaded-IsStored (env.library.loads text) w h
  with_bytes-IsStored none w h = h

module _ (env : Env) (storage : Storage) (config : ScannerConfig) where
  pub process_upload-IsStored :
      (m : Delivered) (w : World) → IsStored w → IsStored (process_upload env storage config m w).1
  unfolding process_upload
  process_upload-IsStored m w h = with_bytes-IsStored env storage config m m.value w h
