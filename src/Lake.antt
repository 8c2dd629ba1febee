-- ===== src/Lake.antt =====
-- services/libs/minio_store/minio_object_store.py: the object store, and the URIs of its objects.
use fintech_data_platform.Prelude.Text.{concat, contains, show, two_digits}
use fintech_data_platform.Prelude.{[], ℕ, String, not, ◌||◌, ◌==◌, ◌∷◌, if◌then◌else◌}
use fintech_data_platform.Library.{Library}
use fintech_data_platform.Exec.{
  ErrorKind, Exec, Keeps, Result, err, failure, keeps_rules, lift, ok, ◌>>=◌,
}
use fintech_data_platform.World.{Env, Fault, World, external, tick}
use fintech_data_platform.World.Committed.{IsStored}

-- `path.lstrip("/")`
unfoldable pub strip_slashes : String → String
strip_slashes String.[] = String.[]
strip_slashes (String.◌∷◌ c s) =
    let rest = strip_slashes s in if String.◌∷◌ c String.[] == "/" then rest else String.◌∷◌ c s

-- `key.rsplit("/", 1)[-1]`
unfoldable pub leaf_of : String → String
leaf_of String.[] = String.[]
leaf_of (String.◌∷◌ c s) =
    let rest = leaf_of s in if contains "/" (String.◌∷◌ c s) then rest else String.◌∷◌ c s

-- the folder of a run: `<prefix>/year=%Y/month=%m/day=%d/run_id=<run_id>/`
unfoldable pub run_folder : Library → String → ℕ → String → String
unfolding show
run_folder lib prefix now run_id =
    let (year, month, day, hour) = lib.calendar now in
    concat (
      prefix
      ∷ "/year="
      ∷ show year
      ∷ "/month="
      ∷ two_digits month
      ∷ "/day="
      ∷ two_digits day
      ∷ "/run_id="
      ∷ run_id
      ∷ "/"
      ∷ [])

-- `split_s3_uri`: the bucket and the key
unfoldable pub split_s3_uri : Library → String → Result (String × String)
unfolding strip_slashes
split_s3_uri lib uri =
    let (scheme, netloc, path) = lib.urlparse uri in
    if not (scheme == "s3") || netloc == "" || path == ""
    then err (failure ErrorKind.value_error "invalid s3 uri")
    else ok (netloc, strip_slashes path)

module _ (env : Env) where
  abbrev written : Fault → String → String → Exec World Unit
  written Fault.fine uri bytes w = (ok tt, record w { objects = (uri, bytes) ∷ w.objects })
  written Fault.lost uri bytes w = (err (external "put_object failed"), w)
  written Fault.unacked uri bytes w =
      (err (external "put_object failed"), record w { objects = (uri, bytes) ∷ w.objects })

  -- `put_object`, of the object that a URI names
  unfoldable pub put_object : String → String → Exec World Unit
  put_object uri bytes w = written (env.fault w.ticks) uri bytes (tick w)

  -- `MinioObjectStore.write_uri`
  unfoldable pub write_uri : String → String → Exec World Unit
  unfolding split_s3_uri put_object
  write_uri uri bytes = do place ← lift (split_s3_uri env.library uri); put_object uri bytes

  -- `get_object` and the reading of its answer
  unfoldable pub get_object : String → String → Exec World String
  get_object bucket key w = (env.get_object w.ticks bucket key, tick w)

  abbrev store_copy : String → Result String → Exec World Unit
  store_copy uri (err e) w = (err e, w)
  store_copy uri (ok bytes) w = written (env.fault w.ticks) uri bytes (tick w)

  -- minio's `copy_object`, inside a bucket
  unfoldable pub copy_object : String → String → String → Exec World Unit
  copy_object bucket source dest w =
      store_copy (concat ("s3://" ∷ bucket ∷ "/" ∷ dest ∷ []))
        (env.get_object w.ticks bucket source) (tick w)

  abbrev read_place : String × String → Exec World String
  read_place (bucket, key) = get_object bucket key

  -- `MinioObjectStore.read_uri`
  unfoldable pub read_uri : String → Exec World String
  unfolding split_s3_uri get_object
  read_uri uri = do place ← lift (split_s3_uri env.library uri); read_place place

  written-IsStored : (f : Fault) (uri text : String) → Keeps IsStored (written f uri text)
  written-IsStored Fault.fine uri text = record { at = λ w h. h }
  written-IsStored Fault.lost uri text = record { at = λ w h. h }
  written-IsStored Fault.unacked uri text = record { at = λ w h. h }

  pub put_object-IsStored : (uri text : String) → Keeps IsStored (put_object uri text)
  unfolding put_object
  put_object-IsStored uri text = record {
    at = λ w h. (written-IsStored (env.fault w.ticks) uri text).at (tick w) h;
  }

  pub write_uri-IsStored : (uri text : String) → Keeps IsStored (write_uri uri text)
  unfolding write_uri
  write_uri-IsStored uri text = search (keeps_rules, put_object-IsStored)

  pub get_object-IsStored : (bucket key : String) → Keeps IsStored (get_object bucket key)
  unfolding get_object
  get_object-IsStored bucket key = record { at = λ w h. h }

  store_copy-IsStored : (uri : String) (r : Result String) → Keeps IsStored (store_copy uri r)
  store_copy-IsStored uri (err e) = record { at = λ w h. h }
  store_copy-IsStored uri (ok bytes) = record {
    at = λ w h. (written-IsStored (env.fault w.ticks) uri bytes).at (tick w) h;
  }

  pub copy_object-IsStored :
      (bucket source dest : String) → Keeps IsStored (copy_object bucket source dest)
  unfolding copy_object
  copy_object-IsStored bucket source dest = record {
    at = λ w h. (store_copy-IsStored _ (env.get_object w.ticks bucket source)).at (tick w) h;
  }

  read_place-IsStored : (p : String × String) → Keeps IsStored (read_place p)
  read_place-IsStored (bucket, key) = get_object-IsStored bucket key

  pub read_uri-IsStored : (uri : String) → Keeps IsStored (read_uri uri)
  unfolding read_uri
  read_uri-IsStored uri = search (keeps_rules, read_place-IsStored)
