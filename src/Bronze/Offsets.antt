-- ===== src/Bronze/Offsets.antt =====
-- The offsets that a batch records, against those of its rows.
use fintech_data_platform.Prelude.{
  ℕ, ◌≤◌, ◌≡◌, refl, List, [], ◌∷◌, All, All-imp, arith, length, map,
}
use fintech_data_platform.Json.{Value}
use fintech_data_platform.Exec.{Result, ok, err}
use fintech_data_platform.World.{World, Env}
use fintech_data_platform.Bronze.Row.{BatchRow}
use fintech_data_platform.Bronze.Batches.{
  Writer, PreparedBatch, least, greatest, offset_of, write_batch,
}

abbrev pub IsWithin : ℕ → ℕ → BatchRow → Type 0
IsWithin low high r = (low ≤ r.kafka_offset) × (r.kafka_offset ≤ high)

first-bounds :
    (n : ℕ) (rest : List BatchRow)
    → (least n (map offset_of rest) ≤ n) × (n ≤ greatest n (map offset_of rest))
first-bounds n [] = (omega arith, omega arith)
first-bounds n (r ∷ rs) = let (lo, hi) = first-bounds n rs in (omega (arith, lo), omega (arith, hi))

rest-IsWithin :
    (n : ℕ) (rest : List BatchRow)
    → All (IsWithin (least n (map offset_of rest)) (greatest n (map offset_of rest))) rest
rest-IsWithin n [] = tt
rest-IsWithin n (r ∷ rs) = (
  (
    omega (arith, (first-bounds r.kafka_offset rs).0),
    omega (arith, (first-bounds r.kafka_offset rs).1),
  ),
  All-imp rs (λ x h. (omega (arith, h.0), omega (arith, h.1))) (rest-IsWithin r.kafka_offset rs),
)

-- What a batch says of its rows.
pub record IsBatchOf (first : BatchRow) (rest : List BatchRow) (b : PreparedBatch) : Type 0 where
  pub start : b.offset_start ≡ least first.kafka_offset (map offset_of rest)
  pub stop : b.offset_end ≡ greatest first.kafka_offset (map offset_of rest)
  pub counted : b.record_count ≡ length (first ∷ rest)

write_batch-IsBatchOf :
    (env : Env) (writer : Writer) (moment : ℕ) (table : Value) (first : BatchRow)
    (rest : List BatchRow) (w : World) (b : PreparedBatch)
    → (write_batch env writer moment table first rest w).0 ≡ ok b
    → IsBatchOf first rest b
unfolding write_batch
write_batch-IsBatchOf env writer moment table first rest w b h = record {
  start = ground arith;
  stop = ground arith;
  counted = ground arith;
}

-- What a result of `write_batch` promises of the rows: a batch has their number and a range of
-- offsets that each of them is in.
abbrev pub Covers : List BatchRow → Result PreparedBatch → Type 0
Covers rows (ok b) =
    All (IsWithin b.offset_start b.offset_end) rows × (b.record_count ≡ length rows)
Covers rows (err e) = Unit

covered :
    (first : BatchRow) (rest : List BatchRow) (r : Result PreparedBatch)
    → ((b : PreparedBatch) → r ≡ ok b → IsBatchOf first rest b)
    → Covers (first ∷ rest) r
covered first rest (err e) h = tt
covered first rest (ok b) h =
    let is = h b refl in
    let (lo, hi) = first-bounds first.kafka_offset rest in
    (
      (
        (omega (arith, is.start, lo), omega (arith, is.stop, hi)),
        All-imp rest (λ x k. (omega (arith, is.start, k.0), omega (arith, is.stop, k.1)))
            (rest-IsWithin first.kafka_offset rest),
      ),
      is.counted,
    )

-- A batch that is written has the number of its rows, and every row's offset lies between the
-- first and the last offset of the batch, in whatever order the rows stand.
pub write_batch_lem :
    (env : Env) (writer : Writer) (moment : ℕ) (table : Value) (first : BatchRow)
    (rest : List BatchRow) (w : World)
    → Covers (first ∷ rest) (write_batch env writer moment table first rest w).0
write_batch_lem env writer moment table first rest w =
    covered first rest (write_batch env writer moment table first rest w).0
      (write_batch-IsBatchOf env writer moment table first rest w)
