-- ===== src/Scanner/Gates.antt =====
-- services/workers/excel_scanner/scanner.py: the gates and the scan of one object.
use fintech_data_platform.Prelude.{
  ℕ, ◌/◌, ◌%◌, String, Bool, true, false, not, ◌&&◌, ◌==◌, Option, none, some, List, [], ◌∷◌, any,
  take, eqb, ltb, if◌then◌else◌,
}
use fintech_data_platform.Prelude.Int.{pos, negsuc}
use fintech_data_platform.Prelude.Text.{concat, show}
use fintech_data_platform.Library.{show_int}
use fintech_data_platform.Json.{Fields}
use fintech_data_platform.Exec.{Result, ok, err}
use fintech_data_platform.Scanner.Upload.{UploadedObject}

pub record ScanVerdict : Type 0 where
  pub passed : Bool
  pub reason : Option String
  pub detail : Option String

abbrev pub pass : ScanVerdict
pass = record { passed = true; reason = none; detail = none }

abbrev pub reject : String → Option String → ScanVerdict
reject reason detail = record { passed = false; reason = some reason; detail = detail }

pub record ScannerConfig : Type 0 where
  pub max_bytes : ℕ
  pub allowed_content_types : List String
  pub scan_engine_version : String

abbrev pub default_allowed_content_types : List String
default_allowed_content_types =
    "application/vnd.openxmlformats-officedocument.spreadsheetml.sheet"
    ∷ "application/vnd.ms-excel.sheet.macroEnabled.12" ∷ []

-- `b"PK\x03\x04"`
abbrev pub xlsx_magic : List ℕ
xlsx_magic = 80 ∷ 75 ∷ 3 ∷ 4 ∷ []

-- `check_size`
unfoldable pub check_size : UploadedObject → ℕ → ScanVerdict
check_size obj max_bytes = elim obj.size_bytes [
  | pos n ↦
      if ltb max_bytes n
      then reject "size_exceeded" (some (concat (show n ∷ " > " ∷ show max_bytes ∷ [])))
      else if eqb n 0
      then reject "size_invalid" (some (show n))
      else pass
  | negsuc n ↦ reject "size_invalid" (some (show_int (negsuc n)))
]

-- `probe.startswith(XLSX_MAGIC)`
abbrev pub has_magic : List ℕ → List ℕ → Bool
has_magic [] probe = true
has_magic (m ∷ ms) [] = false
has_magic (m ∷ ms) (b ∷ bs) = eqb b m && has_magic ms bs

abbrev pub is_allowed : String → List String → Bool
is_allowed t = any (λ a. a == t)

abbrev hex_table : List (ℕ × String)
hex_table = (10, "a") ∷ (11, "b") ∷ (12, "c") ∷ (13, "d") ∷ (14, "e") ∷ (15, "f") ∷ []

abbrev hex_digit : ℕ → List (ℕ × String) → String
hex_digit n [] = show n
hex_digit n ((d, s) ∷ rest) = if eqb n d then s else hex_digit n rest

-- `bytes.hex()`
abbrev hex : List ℕ → String
hex [] = ""
hex (b ∷ bs) = concat (hex_digit (b / 16) hex_table ∷ hex_digit (b % 16) hex_table ∷ hex bs ∷ [])

-- `check_mime`
unfoldable pub check_mime : UploadedObject → List String → List ℕ → ScanVerdict
check_mime obj allowed magic_probe =
    if not (is_allowed obj.content_type allowed)
    then reject "content_type_rejected"
        (some (if obj.content_type == "" then "<missing>" else obj.content_type))
    else if not (has_magic xlsx_magic magic_probe)
    then reject "magic_bytes_mismatch" (some (hex (take 4 magic_probe)))
    else pass

-- The entry under "stream" of clamd's answer: a status and a detail.
abbrev pub Answer : Type 0
Answer = Option (String × Option String)

abbrev detail_or : Option String → String → Option String
detail_or none status = some status
detail_or (some d) status = if d == "" then some status else some d

abbrev of_status : String → Option String → ScanVerdict
of_status status detail =
    if status == "OK"
    then pass
    else if status == "FOUND"
    then reject "malware" detail
    else reject "scan_error" (detail_or detail status)

-- `interpret_clamd_result`
unfoldable pub interpret_clamd_result : Answer → ScanVerdict
interpret_clamd_result none = of_status "ERROR" (some "no stream key")
interpret_clamd_result (some (status, detail)) = of_status status detail

-- What the object store and clamd answer for an object: its metadata, its first four bytes, and
-- the result of the scan. Each may fail.
pub record Storage : Type 0 where
  pub stat : String → String → Result Fields
  pub probe : String → String → Result (List ℕ)
  pub scan : String → String → Result Answer

abbrev scanned : Result Answer → Result ScanVerdict
scanned (err e) = err e
scanned (ok a) = ok (interpret_clamd_result a)

abbrev mime_then : ScanVerdict → Result ScanVerdict → Result ScanVerdict
mime_then v rest = if not v.passed then ok v else rest

module _ (storage : Storage) (config : ScannerConfig) where
  abbrev probed : UploadedObject → Result (List ℕ) → Result ScanVerdict
  probed obj (err e) = err e
  probed obj (ok bytes) =
      mime_then (check_mime obj config.allowed_content_types bytes)
        (scanned (storage.scan obj.bucket obj.object_key))

  -- `_run_gates_and_scan`: the first gate that fails decides.
  unfoldable pub run_gates_and_scan : UploadedObject → Result ScanVerdict
  unfolding check_size check_mime interpret_clamd_result
  run_gates_and_scan obj =
      let size_verdict = check_size obj config.max_bytes in
      if not size_verdict.passed
      then ok size_verdict
      else probed obj (storage.probe obj.bucket obj.object_key)
