-- ===== src/Salesforce/Sorted.antt =====
-- `Corpus.query` of a table with distinct stamps: its rows by rising stamps, and how one query
-- continues another.
use fintech_data_platform.Prelude.{
  ℕ, ◌<◌, ◌≡◌, ◌≢◌, refl, ap, sym, ◌∙◌, Bool, true, false, Option, none, some, List, [], ◌∷◌, All,
  All-imp, keep, ite_cons, arith, ltb, if◌then◌else◌, if_elim,
}
use fintech_data_platform.Salesforce.Corpus.{
  Corpus, Row, Sobject, comes_before, insert_row, is_since, query, sort_rows, table,
}
use fintech_data_platform.Salesforce.Stamps.{IsDistinct}

abbrev pub IsRising : List Row → Type 0
IsRising [] = Unit
IsRising (r ∷ rows) = All (λ (s : Row). r.stamp < s.stamp) rows × IsRising rows

abbrev Differs : Row → List Row → Type 0
Differs r rows = All (λ (s : Row). r.stamp ≢ s.stamp) rows

All-insert_row :
    (P : Row → Type 0) (r : Row) (rows : List Row) → P r → All P rows → All P (insert_row r rows)
unfolding insert_row
All-insert_row P r [] p h = (p, tt)
All-insert_row P r (s ∷ rows) p h =
    if_elim (All P) (comes_before s r) _ _ (λ _. (h.0, All-insert_row P r rows p h.1)) (λ _. (p, h))

All-sort_rows : (P : Row → Type 0) (rows : List Row) → All P rows → All P (sort_rows rows)
unfolding sort_rows
All-sort_rows P [] h = tt
All-sort_rows P (r ∷ rows) h = All-insert_row P r (sort_rows rows) h.0 (All-sort_rows P rows h.1)

insert_row-IsRising :
    (r : Row) (rows : List Row) → Differs r rows → IsRising rows → IsRising (insert_row r rows)
unfolding insert_row
insert_row-IsRising r [] d h = (tt, tt)
insert_row-IsRising r (s ∷ rows) d h =
    if_elim IsRising (comes_before s r) _ _
      (λ before. (
        All-insert_row (λ (t : Row). s.stamp < t.stamp) r rows (ground (arith, before, d.0)) h.0,
        insert_row-IsRising r rows d.1 h.1,
      ))
      (λ after.
        let lt : r.stamp < s.stamp = ground (arith, after, d.0) in
        ((lt, All-imp rows (λ t k. omega (arith, k, lt)) h.0), h))

pub sort_rows-IsRising : (rows : List Row) → IsDistinct rows → IsRising (sort_rows rows)
unfolding sort_rows
sort_rows-IsRising [] d = tt
sort_rows-IsRising (r ∷ rows) d =
    insert_row-IsRising r (sort_rows rows) (All-sort_rows (λ (t : Row). r.stamp ≢ t.stamp) rows d.0)
      (sort_rows-IsRising rows d.1)

-- The rows behind one that is kept are kept.
kept_behind :
    (n : ℕ) (r : Row) (rows : List Row)
    → n < r.stamp
    → All (λ (s : Row). r.stamp < s.stamp) rows
    → keep (is_since (some n)) rows ≡ rows
kept_behind n r [] lt h = refl
kept_behind n r (s ∷ rows) lt h = ground (arith, kept_behind n r rows lt h.1, h.0)

keep-insert_row :
    (n : ℕ) (r : Row) (rows : List Row)
    → Differs r rows
    → IsRising rows
    → keep (is_since (some n)) (insert_row r rows) ≡ (
        if ltb n r.stamp
        then insert_row r (keep (is_since (some n)) rows)
        else keep (is_since (some n)) rows)
unfolding insert_row
keep-insert_row n r [] d h = ground arith
keep-insert_row n r (s ∷ rows) d h =
    split (comes_before s r) (ltb n r.stamp) (ltb n s.stamp) refl refl refl
      (keep-insert_row n r rows d.1 h.1)
  where
    split :
        (before p q : Bool)
        → comes_before s r ≡ before
        → ltb n r.stamp ≡ p
        → ltb n s.stamp ≡ q
        → keep (is_since (some n)) (insert_row r rows) ≡ (
            if p
            then insert_row r (keep (is_since (some n)) rows)
            else keep (is_since (some n)) rows)
        → keep (is_since (some n)) (if before then s ∷ insert_row r rows else r ∷ s ∷ rows) ≡ (
            if p
            then insert_row r (ite_cons q s (keep (is_since (some n)) rows))
            else ite_cons q s (keep (is_since (some n)) rows))
    split true true true b e f ih = ground (arith, d.0)
    split true true false b e f ih = ground (arith, d.0)
    split true false true b e f ih = ground (arith, d.0)
    split true false false b e f ih = ground (arith, d.0)
    split false true true b e f ih = ground (arith, d.0)
    split false true false b e f ih = ground (arith, d.0)
    split false false true b e f ih = ground (arith, d.0)
    split false false false b e f ih = ground (arith, d.0)

keep-sort_rows :
    (n : ℕ) (rows : List Row)
    → IsDistinct rows
    → sort_rows (keep (is_since (some n)) rows) ≡ keep (is_since (some n)) (sort_rows rows)
unfolding sort_rows
keep-sort_rows n [] d = refl
keep-sort_rows n (r ∷ rows) d =
    first (ltb n r.stamp) refl (keep-sort_rows n rows d.1)
    ∙ sym (
        keep-insert_row n r (sort_rows rows)
          (All-sort_rows (λ (t : Row). r.stamp ≢ t.stamp) rows d.0) (sort_rows-IsRising rows d.1))
  where
    first :
        (b : Bool)
        → ltb n r.stamp ≡ b
        → sort_rows (keep (is_since (some n)) rows) ≡ keep (is_since (some n)) (sort_rows rows)
        → sort_rows (ite_cons b r (keep (is_since (some n)) rows)) ≡ (
            if b
            then insert_row r (keep (is_since (some n)) (sort_rows rows))
            else keep (is_since (some n)) (sort_rows rows))
    first true q ih = ap (insert_row r) ih
    first false q ih = ih

keep_all : (rows : List Row) → keep (is_since none) rows ≡ rows
keep_all [] = refl
keep_all (r ∷ rows) = ap (◌∷◌ r) (keep_all rows)

-- A query answers with the rows of the sorted table that are later than its time.
pub query_lem :
    (s : Sobject) (since : Option ℕ) (c : Corpus)
    → IsDistinct (table s c)
    → query s since c ≡ keep (is_since since) (sort_rows (table s c))
unfolding query
query_lem s none c d = ap sort_rows (keep_all (table s c)) ∙ sym (keep_all (sort_rows (table s c)))
query_lem s (some n) c d = keep-sort_rows n (table s c) d
