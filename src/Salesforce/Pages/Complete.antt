-- ===== src/Salesforce/Pages/Complete.antt =====
-- The pull from the corpus: it ends, and misses no record that has changed since its time.
use fintech_data_platform.Prelude.{
  ℕ, suc, ◌≤◌, ◌≡◌, refl, ap, sym, subst, ◌∙◌, Bool, ◌&&◌, Option, some, List, [], ◌∷◌, keep, count,
  length, arith,
}
use fintech_data_platform.Salesforce.Corpus.{
  Change, Corpus, Row, Sobject, changes, insert_row, is_since, query, sort_rows, table, unseeded,
  account, contact, opportunity,
}
use fintech_data_platform.Salesforce.Stamps.{IsDistinct, IsStamped, changes-IsStamped}
use fintech_data_platform.Salesforce.Sorted.{IsRising}
use fintech_data_platform.Salesforce.Pages.{Page, build_page, pull_pages, records_flat}
use fintech_data_platform.Salesforce.Pages.Whole.{pull, query-IsRising}

module _ (p : Row → Bool) where
  count-insert_row : (r : Row) (rows : List Row) → count p (insert_row r rows) ≡ count p (r ∷ rows)
  unfolding insert_row
  count-insert_row r [] = refl
  count-insert_row r (s ∷ rows) = ground (arith, count-insert_row r rows)

  count-sort_rows : (rows : List Row) → count p (sort_rows rows) ≡ count p rows
  unfolding sort_rows
  count-sort_rows [] = refl
  count-sort_rows (r ∷ rows) =
      ground (arith, count-insert_row r (sort_rows rows), count-sort_rows rows)

  count-keep :
      (q : Row → Bool) (rows : List Row) → count p (keep q rows) ≡ count (λ r. q r && p r) rows
  count-keep q [] = refl
  count-keep q (r ∷ rows) = ground (arith, count-keep q rows)

length-insert_row : (r : Row) (rows : List Row) → length (insert_row r rows) ≡ suc (length rows)
unfolding insert_row
length-insert_row r [] = refl
length-insert_row r (s ∷ rows) = ground (arith, length-insert_row r rows)

length-sort_rows : (rows : List Row) → length (sort_rows rows) ≡ length rows
unfolding sort_rows
length-sort_rows [] = refl
length-sort_rows (r ∷ rows) =
    omega (arith, length-insert_row r (sort_rows rows), length-sort_rows rows)

length-keep : (q : Row → Bool) (rows : List Row) → length (keep q rows) ≤ length rows
length-keep q [] = omega arith
length-keep q (r ∷ rows) = ground (arith, length-keep q rows)

length-query :
    (s : Sobject) (since : Option ℕ) (c : Corpus) → length (query s since c) ≤ length (table s c)
unfolding query
length-query s since c = omega (
  arith,
  length-sort_rows (keep (is_since since) (table s c)),
  length-keep (is_since since) (table s c),
)

table-IsDistinct : (s : Sobject) (c : Corpus) → IsStamped c → IsDistinct (table s c)
table-IsDistinct account c h = h.0.1
table-IsDistinct contact c h = h.1.1
table-IsDistinct opportunity c h = h.2.1

-- The pull of a table with some page size ends after at most one round more than the table has
-- records. Its records are by rising stamps, and each record of the table stands among them as often as in the
-- table if it has changed since the given time, and not otherwise.
pub record IsComplete (s : Sobject) (c : Corpus) (since : Option ℕ) (page_size : ℕ) : Type 0 where
  pub pages : List Page
  pub ends : pull_pages (build_page s page_size c) (suc (length (table s c))) since ≡ some pages
  pub rising : IsRising (records_flat pages)
  pub same :
      (p : Row → Bool)
      → count p (records_flat pages) ≡ count (λ r. is_since since r && p r) (table s c)

pull-IsComplete :
    (s : Sobject) (k : ℕ) (c : Corpus) (since : Option ℕ)
    → IsDistinct (table s c)
    → IsComplete s c since (suc k)
unfolding query
pull-IsComplete s k c since d =
    let done =
      pull s k c d (suc (length (table s c))) since (omega (arith, length-query s since c)) in
    record {
      pages = done.pages;
      ends = done.pulled;
      rising = subst IsRising (sym done.whole) (query-IsRising s k c d since);
      same = λ p.
          ap (count p) done.whole
          ∙ count-sort_rows p (keep (is_since since) (table s c))
          ∙ count-keep p (is_since since) (table s c);
    }

-- Whatever has been seeded and changed before, at whatever times of the clock, a pull with a page
-- size of at least one ends, and has exactly the records that have changed since the given time, by
-- rising stamps.
pub pull_whole :
    (xs : List Change) (stamp : ℕ) (s : Sobject) (k : ℕ) (since : Option ℕ)
    → IsComplete s (changes xs (unseeded stamp)) since (suc k)
pull_whole xs stamp s k since = pull-IsComplete s k (changes xs (unseeded stamp)) since (
    table-IsDistinct s (changes xs (unseeded stamp))
      (changes-IsStamped xs (unseeded stamp) ((tt, tt), (tt, tt), (tt, tt))))
