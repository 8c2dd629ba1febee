-- ===== src/Scanner/Upload.antt =====
-- services/workers/excel_scanner/scanner.py: an uploaded object, `parse_minio_record`, the uploader
-- in the object's metadata, and the schema contract in its key.
use fintech_data_platform.Prelude.{String, not, ◌==◌, Option, none, some, [], ◌∷◌, if◌then◌else◌}
use fintech_data_platform.Prelude.Int.{ℤ}
use fintech_data_platform.Prelude.Text.{concat, contains, lower, strip, is_blank}
use fintech_data_platform.Json.{Value, str, obj, Fields, end, field, get, lookup, truthy, or_else}
use fintech_data_platform.Library.{Library, Time, aware, str_of, item, get_item}
use fintech_data_platform.Exec.{Exec, Result, ok, err, failure, ErrorKind, pure, lift, ◌>>=◌, ◌>>>◌}
use fintech_data_platform.World.{World, Env, draw_time}

pub record UploadedObject : Type 0 where
  pub bucket : String
  pub object_key : String
  pub etag : String
  pub size_bytes : ℤ
  pub content_type : String
  pub uploader_principal : String
  pub event_time : Time

-- the property `trigger_event_ref`
abbrev pub upload_ref : UploadedObject → String
upload_ref o = concat ("minio:" ∷ o.bucket ∷ ":" ∷ o.object_key ∷ ":" ∷ o.etag ∷ [])

-- `d.get("userIdentity", {})`
abbrev identity_of : Fields → Value
identity_of fs = elim (lookup "userIdentity" fs) [ none ↦ obj end | some v ↦ v ]

abbrev text_of_key : Library → Value → Result String
text_of_key lib (str s) = ok (lib.unquote_plus s)
text_of_key lib v = err (failure ErrorKind.type_error "expected a text")

-- `except KeyError as exc: raise ValueError(...)`; other errors go through.
abbrev key_error_to_value : {A : Type 0} → Result A → Result A
key_error_to_value (ok a) = ok a
key_error_to_value (err e) = elim e.kind [
  | ErrorKind.key_error ↦ err (
      failure ErrorKind.value_error
        (concat ("Malformed MinIO S3 notification: missing " ∷ e.message ∷ [])))
  | _ ↦ err e
]

-- The parts of the record that the first `try` reads, up to the time.
pub record Parts : Type 0 where
  pub bucket : String
  pub object_key : String
  pub size_bytes : ℤ
  pub etag : Value
  pub content_type : Value
  pub uploader : Value

module _ (lib : Library) where
  -- Each `>>>` is one line of the `try` block.
  abbrev parts_of : Fields → Result Parts
  parts_of rec = item "s3" (obj rec) >>> λ s3. item "bucket" s3 >>> λ b. item "name" b >>> λ bucket.
      item "object" s3 >>> λ o. item "key" o >>> λ key. text_of_key lib key >>> λ object_key.
      item "size" o >>> λ size. lib.int_of size >>> λ size_bytes.
      get_item "eTag" o >>> λ etag_upper. get_item "etag" o >>> λ etag_lower.
      get_item "contentType" o >>> λ type_upper. get_item "content-type" o >>> λ type_lower.
      get_item "principalId" (identity_of rec) >>> λ principal. ok (record {
        bucket = str_of lib bucket;
        object_key = object_key;
        size_bytes = size_bytes;
        etag = or_else etag_upper (or_else etag_lower (str ""));
        content_type = or_else type_upper (or_else type_lower (str ""));
        uploader = or_else principal (str "unknown");
      })

  abbrev time_of : String → Result Time
  time_of s = elim (lib.from_isoformat s) [
    | none ↦ err (failure ErrorKind.value_error "Invalid eventTime")
    | some t ↦ ok t
  ]

  -- a time that is no text has no `replace`
  abbrev time_value : Value → Result Time
  time_value (str s) = time_of s
  time_value v = err (failure ErrorKind.type_error "object has no attribute 'replace'")

  abbrev uploaded : Parts → Time → Result UploadedObject
  uploaded p t =
      if not (truthy p.etag)
      then err (failure ErrorKind.value_error "MinIO record missing eTag")
      else ok (record {
        bucket = p.bucket;
        object_key = p.object_key;
        etag = str_of lib p.etag;
        size_bytes = p.size_bytes;
        content_type = str_of lib p.content_type;
        uploader_principal = str_of lib p.uploader;
        event_time = t;
      })

  -- The time of the event: the record's, or now.
  abbrev pub event_time_of : Env → Value → Exec World Time
  event_time_of env v =
      if truthy v then lift (time_value v) else (do now ← draw_time env; pure (aware now))

-- `parse_minio_record`
unfoldable pub parse_minio_record : Env → Fields → Exec World UploadedObject
unfolding str_of draw_time
parse_minio_record env rec = do
  parts ← lift (key_error_to_value (parts_of env.library rec))
  time ← event_time_of env.library env (get "eventTime" rec)
  lift (uploaded env.library parts time)

-- The value of the last key that is `key` in lower case: what the comprehension leaves under it.
unfoldable pub lowered_lookup : String → Fields → Option Value
unfolding lower
lowered_lookup key end = none
lowered_lookup key (field k v rest) = elim (lowered_lookup key rest) [
  | some w ↦ some w
  | none ↦ if lower k == key then some v else none
]

abbrev non_blank : Option Value → Option String
non_blank (some (str s)) = if is_blank s then none else some (strip s)
non_blank _ = none

abbrev first_of_two : Option String → Option String → Option String
first_of_two none b = b
first_of_two (some a) b = some a

abbrev uploader_of : Fields → Option String
uploader_of metadata =
    first_of_two (non_blank (lowered_lookup "uploader-principal" metadata))
      (non_blank (lowered_lookup "x-amz-meta-uploader-principal" metadata))

-- `_extract_uploader_from_stat`
unfoldable pub extract_uploader_from_stat : Fields → Option String
unfolding lowered_lookup is_blank strip
extract_uploader_from_stat stat = elim (get "metadata" stat) [ obj fs ↦ uploader_of fs | _ ↦ none ]

abbrev pub default_schema_contract_id : String
default_schema_contract_id = "payroll_v1"

-- `_infer_schema_contract_id`
unfoldable pub infer_schema_contract_id : String → String
unfolding contains lower
infer_schema_contract_id object_key =
    if contains "commission" (lower object_key)
    then "commission_adjustment_v1"
    else default_schema_contract_id
