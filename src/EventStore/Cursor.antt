-- ===== src/EventStore/Cursor.antt =====
-- `latest_sf_cursor`: the cursor from which the next pull goes on.
use fintech_data_platform.Prelude.{
  ℕ, ◌≤◌, String, ◌≡◌, refl, Bool, true, false, Option, none, some, List, [], ◌∷◌, All, All-imp,
  arith, if◌then◌else◌, ◌==◌, eq_iff, inl, inr, Bool-cases, ◌⊎◌, ltb,
}
use fintech_data_platform.Exec.{ok}
use fintech_data_platform.EventStore.{Db, SfCursor, latest_of, later, latest_sf_cursor}

-- The checkpoint is a row of the table.
abbrev pub IsRow : SfCursor → List SfCursor → Type 0
IsRow c [] = ⊥
IsRow c (d ∷ ds) = (c ≡ d) ⊎ IsRow c ds

-- The answer is a row of the object, and none of the object's rows is more recent; with no answer
-- there is no row of the object.
abbrev pub IsLatest : String → List SfCursor → Option SfCursor → Type 0
IsLatest s cs none = All (λ (d : SfCursor). (d.sobject == s) ≡ false) cs
IsLatest s cs (some c) =
    IsRow c cs
    × (c.sobject ≡ s)
    × All (λ (d : SfCursor). (d.sobject == s) ≡ true → d.recorded_at ≤ c.recorded_at) cs

latest_of-IsLatest : (s : String) (cs : List SfCursor) → IsLatest s cs (latest_of s cs)
unfolding latest_of
latest_of-IsLatest s [] = tt
latest_of-IsLatest s (c ∷ cs) =
    newer (latest_of s cs) (latest_of-IsLatest s cs) (c.sobject == s) refl
  where
    newer :
        (rest : Option SfCursor)
        → IsLatest s cs rest
        → (b : Bool) → (c.sobject == s) ≡ b
        → IsLatest s (c ∷ cs) (if b then later c rest else rest)
    newer none h false e = (e, h)
    newer none h true e =
        (inl refl, (eq_iff c.sobject s).0 e, (λ _. omega arith, All-imp cs (λ d other mine. cc) h))
    newer (some d) h false e = (inr h.0, h.1, (λ mine. cc, h.2))
    newer (some d) h true e = newest (Bool-cases (ltb c.recorded_at d.recorded_at))
      where
        newest :
            (ltb c.recorded_at d.recorded_at ≡ true) ⊎ (ltb c.recorded_at d.recorded_at ≡ false)
            → IsLatest s (c ∷ cs) (later c (some d))
        newest (inl older) = rw older (inr h.0, h.1, (λ _. ground arith, h.2))
        newest (inr newer_row) = rw newer_row (
          inl refl,
          (eq_iff c.sobject s).0 e,
          (λ _. omega arith, All-imp cs (λ x k mine. ground (arith, k mine)) h.2),
        )

-- What is read: nothing, if the object has no row, or the cursor of a latest row of the object.
abbrev pub IsRead : String → List SfCursor → Option (ℕ × String) → Type 0
IsRead s cs none = All (λ (d : SfCursor). (d.sobject == s) ≡ false) cs
IsRead s cs (some (ts, id)) =
    (c : SfCursor) × IsLatest s cs (some c) × (c.cursor_ts ≡ ts) × (c.cursor_id ≡ id)

-- The cursor that is read is that of a row of the object than which none of the object's rows is
-- more recent; when nothing is read the object has no row. The read does not fail and changes
-- nothing.
pub latest_sf_cursor-IsLatest :
    (s : String) (db : Db)
    → (o : Option (ℕ × String)) × (latest_sf_cursor s db ≡ (ok o, db)) × IsRead s db.sf_cursors o
unfolding latest_sf_cursor
latest_sf_cursor-IsLatest s db =
    read (latest_of s db.sf_cursors) refl (latest_of-IsLatest s db.sf_cursors)
  where
    read :
        (o : Option SfCursor)
        → latest_of s db.sf_cursors ≡ o
        → IsLatest s db.sf_cursors o
        → (a : Option (ℕ × String)) × (latest_sf_cursor s db ≡ (ok a, db))
          × IsRead s db.sf_cursors a
    read none q h = (none, rw q refl, h)
    read (some c) q h = (some (c.cursor_ts, c.cursor_id), rw q refl, (c, h, refl, refl))
