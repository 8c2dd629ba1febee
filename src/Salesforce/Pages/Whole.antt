-- ===== src/Salesforce/Pages/Whole.antt =====
-- The pull ends, and it has every record since its time.
use fintech_data_platform.Prelude.{
  ℕ, zero, suc, ◌≤◌, ◌<◌, ◌≡◌, refl, ap, sym, subst, leb→le, ◌∙◌, Bool, true, false, Option, none,
  some, List, [], ◌∷◌, ◌++◌, All, keep, ite_cons, ◌+◌, take, drop, length, leb, ltb, arith,
  take-append-drop, if◌then◌else◌,
}
use mathlib.Core.Option
use fintech_data_platform.Salesforce.Corpus.{
  Corpus, Row, Sobject, is_since, query, sort_rows, table,
}
use fintech_data_platform.Salesforce.Stamps.{IsDistinct}
use fintech_data_platform.Salesforce.Sorted.{IsRising, query_lem, sort_rows-IsRising}
use fintech_data_platform.Salesforce.Pages.{
  Page, build_page, last_stamp_of, followed, page_of, pull_pages, records_flat,
}

abbrev AllStamps : (ℕ → Type 0) → List Row → Type 0
AllStamps Q rows = All (λ (r : Row). Q r.stamp) rows

keep_later :
    (m : ℕ) (rows : List Row) → AllStamps (λ t. m < t) rows → keep (is_since (some m)) rows ≡ rows
keep_later m [] h = refl
keep_later m (r ∷ rows) h = ground (arith, keep_later m rows h.1, h.0)

-- The time after which the next page goes on.
record Continues (k : ℕ) (rows : List Row) : Type 1 where
  after : ℕ
  last : last_stamp_of (take (suc k) rows) ≡ some after
  rest : keep (is_since (some after)) rows ≡ drop (suc k) rows
  among : (Q : ℕ → Type 0) → AllStamps Q rows → Q after

continues : (k : ℕ) (rows : List Row) → IsRising rows → k < length rows → Continues k rows
continues k [] h lt = absurd (omega (arith, lt))
continues zero (r ∷ rows) h lt = record {
  after = r.stamp;
  last = refl;
  rest = ground (arith, keep_later r.stamp rows h.0);
  among = λ Q a. a.0;
}
continues (suc k) (r ∷ []) h lt = absurd (omega (arith, lt))
continues (suc k) (r ∷ s ∷ rows) h lt =
    let next = continues k (s ∷ rows) h.1 (omega (arith, lt)) in
    record {
      after = next.after;
      last = next.last;
      rest = ground (arith, next.rest, next.among (λ t. r.stamp < t) h.0);
      among = λ Q a. next.among Q a.1;
    }

-- A row that is later than a time that a query has passed is of the query.
abbrev Passes : Option ℕ → ℕ → Type 0
Passes none t = Unit
Passes (some n) t = n < t

keep-Passes :
    (since : Option ℕ) (rows : List Row) → AllStamps (Passes since) (keep (is_since since) rows)
keep-Passes since [] = tt
keep-Passes none (r ∷ rows) = (tt, keep-Passes none rows)
keep-Passes (some n) (r ∷ rows) = kept (ltb n r.stamp) refl (keep-Passes (some n) rows)
  where
    kept :
        (b : Bool)
        → ltb n r.stamp ≡ b
        → AllStamps (Passes (some n)) (keep (is_since (some n)) rows)
        → AllStamps (Passes (some n)) (ite_cons b r (keep (is_since (some n)) rows))
    kept true q h = (ground arith, h)
    kept false q h = h

keep-keep :
    (since : Option ℕ) (m : ℕ) (rows : List Row)
    → Passes since m
    → keep (is_since (some m)) (keep (is_since since) rows) ≡ keep (is_since (some m)) rows
keep-keep since m [] p = refl
keep-keep none m (r ∷ rows) p = ground (arith, keep-keep none m rows p)
keep-keep (some n) m (r ∷ rows) p = ground (arith, keep-keep (some n) m rows p)

All-keep :
    (Q : ℕ → Type 0) (since : Option ℕ) (rows : List Row)
    → AllStamps Q rows
    → AllStamps Q (keep (is_since since) rows)
All-keep Q since [] h = tt
All-keep Q since (r ∷ rows) h = kept (is_since since r) (All-keep Q since rows h.1)
  where
    kept :
        (b : Bool)
        → AllStamps Q (keep (is_since since) rows)
        → AllStamps Q (ite_cons b r (keep (is_since since) rows))
    kept true k = (h.0, k)
    kept false k = k

keep-IsRising :
    (since : Option ℕ) (rows : List Row) → IsRising rows → IsRising (keep (is_since since) rows)
keep-IsRising since [] h = tt
keep-IsRising since (r ∷ rows) h = kept (is_since since r) (keep-IsRising since rows h.1)
  where
    kept :
        (b : Bool)
        → IsRising (keep (is_since since) rows)
        → IsRising (ite_cons b r (keep (is_since since) rows))
    kept true k = (All-keep (λ t. r.stamp < t) since rows h.0, k)
    kept false k = k

take_all : (n : ℕ) (rows : List Row) → length rows ≤ n → take n rows ≡ rows
take_all zero [] h = refl
take_all (suc n) [] h = refl
take_all zero (r ∷ rows) h = absurd (omega (arith, h))
take_all (suc n) (r ∷ rows) h = ap (◌∷◌ r) (take_all n rows (omega (arith, h)))

append_nil : (rows : List Row) → rows ++ [] ≡ rows
append_nil [] = refl
append_nil (r ∷ rows) = ap (◌∷◌ r) (append_nil rows)

length-drop : (n : ℕ) (rows : List Row) → n ≤ length rows → n + length (drop n rows) ≡ length rows
length-drop zero rows h = omega arith
length-drop (suc n) [] h = absurd (omega (arith, h))
length-drop (suc n) (r ∷ rows) h = omega (arith, length-drop n rows (omega (arith, h)))

module _ (s : Sobject) (k : ℕ) (c : Corpus) (d : IsDistinct (table s c)) where
  pub query-IsRising : (since : Option ℕ) → IsRising (query s since c)
  query-IsRising since =
      subst IsRising (sym (query_lem s since c d))
        (keep-IsRising since (sort_rows (table s c)) (sort_rows-IsRising (table s c) d))

  query-Passes : (since : Option ℕ) → AllStamps (Passes since) (query s since c)
  query-Passes since =
      subst (AllStamps (Passes since)) (sym (query_lem s since c d))
        (keep-Passes since (sort_rows (table s c)))

  -- The query after the last record of a page has the rows that the page has left.
  next_query :
      (since : Option ℕ) (n : Continues k (query s since c))
      → query s (some n.after) c ≡ drop (suc k) (query s since c)
  next_query since n =
      query_lem s (some n.after) c d
      ∙ sym (
          keep-keep since n.after (sort_rows (table s c))
            (n.among (Passes since) (query-Passes since)))
      ∙ ap (keep (is_since (some n.after))) (sym (query_lem s since c d))
      ∙ n.rest

  abbrev fetch : Option ℕ → Page
  fetch = build_page s (suc k) c

  one_page :
      (since : Option ℕ) (fuel : ℕ)
      → leb (length (query s since c)) (suc k) ≡ true
      → pull_pages fetch (suc fuel) since ≡ some (page_of (suc k) (query s since c) ∷ [])
  unfolding pull_pages build_page
  one_page since fuel q =
      ap
        (λ b.
          if b
          then some (page_of (suc k) (query s since c) ∷ [])
          else followed (page_of (suc k) (query s since c)) (page_of (suc k) (query s since c)).next
              (λ next. pull_pages fetch fuel (some next)))
        q

  more_pages :
      (since : Option ℕ) (fuel : ℕ) (n : Continues k (query s since c))
      → leb (length (query s since c)) (suc k) ≡ false
      → pull_pages fetch (suc fuel) since
        ≡ Option.map
            (◌∷◌ (page_of (suc k) (query s since c)))
            (pull_pages fetch fuel (some n.after))
  unfolding pull_pages build_page
  more_pages since fuel n q =
      ap
        (λ b.
          if b
          then some (page_of (suc k) (query s since c) ∷ [])
          else followed (page_of (suc k) (query s since c))
              (if b then none else last_stamp_of (take (suc k) (query s since c)))
              (λ next. pull_pages fetch fuel (some next)))
        q
      ∙ ap
          (λ o.
            followed (page_of (suc k) (query s since c)) o
              (λ next. pull_pages fetch fuel (some next)))
          n.last

  pub record Pulled (fuel : ℕ) (since : Option ℕ) : Type 0 where
    pub pages : List Page
    pub pulled : pull_pages fetch fuel since ≡ some pages
    pub whole : records_flat pages ≡ query s since c

  pub pull : (fuel : ℕ) (since : Option ℕ) → length (query s since c) < fuel → Pulled fuel since
  pull zero since lt = absurd (omega (arith, lt))
  pull (suc fuel) since lt = split (leb (length (query s since c)) (suc k)) refl (pull fuel)
    where
      split :
          (b : Bool)
          → leb (length (query s since c)) (suc k) ≡ b
          → ((next : Option ℕ) → length (query s next c) < fuel → Pulled fuel next)
          → Pulled (suc fuel) since
      split true q go = record {
        pages = page_of (suc k) (query s since c) ∷ [];
        pulled = one_page since fuel q;
        whole = append_nil _ ∙ take_all (suc k) (query s since c) (leb→le _ _ q);
      }
      split false q go =
          let n = continues k (query s since c) (query-IsRising since) (ground (arith, q)) in
          let rest = go (some n.after) (
            omega (
              arith,
              lt,
              ap length (next_query since n),
              length-drop (suc k) (query s since c) (ground (arith, q)),
            )) in
          record {
            pages = page_of (suc k) (query s since c) ∷ rest.pages;
            pulled =
                more_pages since fuel n q
                ∙ ap (Option.map (◌∷◌ (page_of (suc k) (query s since c)))) rest.pulled;
            whole =
                ap (◌++◌ (take (suc k) (query s since c))) (rest.whole ∙ next_query since n)
                ∙ take-append-drop (suc k) (query s since c);
          }
