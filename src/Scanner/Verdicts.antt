-- ===== src/Scanner/Verdicts.antt =====
-- What the verdict of `_run_gates_and_scan` says of an object.
use fintech_data_platform.Prelude.{
  ℕ, ◌≤◌, ◌<◌, String, ◌≡◌, refl, ap, ◌∙◌, ◌⊎◌, ◌↔◌, inl, inr, true, Option, none, some, List,
  arith, eq_iff, eq_refl,
}
use fintech_data_platform.Prelude.Int.{ℤ, pos, negsuc}
use fintech_data_platform.Exec.{ok, Result-cases}
use fintech_data_platform.Scanner.Upload.{UploadedObject}
use fintech_data_platform.Scanner.Gates.{
  ScanVerdict, pass, ScannerConfig, Storage, Answer, check_size, check_mime, has_magic, is_allowed,
  xlsx_magic, interpret_clamd_result, run_gates_and_scan,
}

ℤ-cases : (z : ℤ) → ((n : ℕ) × (z ≡ pos n)) ⊎ ((n : ℕ) × (z ≡ negsuc n))
ℤ-cases (pos n) = inl (n, refl)
ℤ-cases (negsuc n) = inr (n, refl)

size_of_pass :
    (o : UploadedObject) (m : ℕ)
    → (check_size o m).passed ≡ true
    → (n : ℕ) × (o.size_bytes ≡ pos n) × (0 < n) × (n ≤ m)
unfolding check_size
size_of_pass o m h = elim (ℤ-cases o.size_bytes) [
  | inl (n, e) ↦ (n, e, ground (arith, h, e), ground (arith, h, e))
  | inr (n, e) ↦ absurd (ground (arith, h, e))
]

mime_of_pass :
    (o : UploadedObject) (allowed : List String) (bytes : List ℕ)
    → (check_mime o allowed bytes).passed ≡ true
    → (is_allowed o.content_type allowed ≡ true) × (has_magic xlsx_magic bytes ≡ true)
unfolding check_mime
mime_of_pass o allowed bytes h = ground (arith, h)

answer_of_pass :
    (a : Answer)
    → (interpret_clamd_result a).passed ≡ true
    → (d : Option String) × (a ≡ some ("OK", d))
unfolding interpret_clamd_result
answer_of_pass none h = absurd (ground (arith, h))
answer_of_pass (some (status, d)) h = (d, ground (arith, h, eq_iff status "OK"))

module _ (storage : Storage) (config : ScannerConfig) where
  -- A size within the limit, an allowed content type, the signature of an archive in the first
  -- bytes, and clamd's "OK".
  pub record IsClean (o : UploadedObject) : Type 0 where
    pub size : ℕ
    pub bytes : List ℕ
    pub detail : Option String
    pub size_is : o.size_bytes ≡ pos size
    pub positive : 0 < size
    pub within : size ≤ config.max_bytes
    pub allowed : is_allowed o.content_type config.allowed_content_types ≡ true
    pub probed : storage.probe o.bucket o.object_key ≡ ok bytes
    pub magic : has_magic xlsx_magic bytes ≡ true
    pub clean : storage.scan o.bucket o.object_key ≡ ok (some ("OK", detail))

  pass_of_IsClean : (o : UploadedObject) → IsClean o → run_gates_and_scan storage config o ≡ ok pass
  unfolding run_gates_and_scan
  pass_of_IsClean o c =
      ground (
        arith,
        c.size_is,
        c.positive,
        c.within,
        c.allowed,
        c.probed,
        c.magic,
        c.clean,
        eq_refl "OK",
      )

  scan_of_pass :
      (o : UploadedObject) (v : ScanVerdict)
      → run_gates_and_scan storage config o ≡ ok v
      → v.passed ≡ true
      → (bytes : List ℕ) × (a : Answer) × (storage.probe o.bucket o.object_key ≡ ok bytes)
        × (storage.scan o.bucket o.object_key ≡ ok a)
        × ((check_size o config.max_bytes).passed ≡ true)
        × ((check_mime o config.allowed_content_types bytes).passed ≡ true)
        × ((interpret_clamd_result a).passed ≡ true)
  unfolding run_gates_and_scan
  scan_of_pass o v h p = elim (Result-cases (storage.probe o.bucket o.object_key)) [
    | inr (e, failed) ↦ absurd (ground arith)
    | inl (bytes, read) ↦ elim (Result-cases (storage.scan o.bucket o.object_key)) [
      | inr (e, failed) ↦ absurd (ground arith)
      | inl (a, scanned) ↦ (
        bytes,
        a,
        read,
        scanned,
        ground (arith, h, p, read, scanned),
        ground (arith, h, p, read, scanned),
        ground (arith, h, p, read, scanned),
      )
    ]
  ]

  scan-IsClean :
      (o : UploadedObject) (v : ScanVerdict)
      → run_gates_and_scan storage config o ≡ ok v
      → v.passed ≡ true
      → IsClean o
  scan-IsClean o v h p =
      let (bytes, a, read, scanned, size_ok, mime_ok, scan_ok) = scan_of_pass o v h p in
      let (n, size_is, positive, within) = size_of_pass o config.max_bytes size_ok in
      let (allowed, magic) = mime_of_pass o config.allowed_content_types bytes mime_ok in
      let (d, is_ok) = answer_of_pass a scan_ok in
      record {
        size = n;
        bytes = bytes;
        detail = d;
        size_is = size_is;
        positive = positive;
        within = within;
        allowed = allowed;
        probed = read;
        magic = magic;
        clean = scanned ∙ ap ok is_ok;
      }

  -- The verdict is a pass exactly for an object that is not empty and within the size limit, of
  -- an allowed content type, with the signature of an archive, and "OK" for clamd.
  pub passes_iff_IsClean :
      (o : UploadedObject) → IsClean o ↔ (run_gates_and_scan storage config o ≡ ok pass)
  passes_iff_IsClean o = (pass_of_IsClean o, λ passed. scan-IsClean o pass passed refl)
