-- ===== src/Salesforce/Pages.antt =====
-- The pages of a query: `_build_page` of services/workers/salesforce-mock-api/main.py, and
-- `_pull_pages` of services/pipeline/salesforce_pull/common.py, which follows them. The time that a
-- `nextRecordsUrl` carries stands for the URL; an answer that is no page ends the pull, by an error.
pub mod Whole
pub mod Complete
use fintech_data_platform.Prelude.{
  ℕ, zero, suc, Bool, true, Option, none, some, List, [], ◌∷◌, ◌++◌, length, take, leb,
  if◌then◌else◌,
}
use mathlib.Core.Option
use fintech_data_platform.Salesforce.Corpus.{Corpus, Row, Sobject, query}

-- A page, with the cursor of its `nextRecordsUrl`.
pub record Page : Type 0 where
  pub total_size : ℕ
  pub done : Bool
  pub records : List Row
  pub next : Option ℕ

abbrev pub last_stamp_of : List Row → Option ℕ
last_stamp_of [] = none
last_stamp_of (r ∷ []) = some r.stamp
last_stamp_of (r ∷ s ∷ rows) = last_stamp_of (s ∷ rows)

abbrev pub page_of : ℕ → List Row → Page
page_of page_size rows =
    let done = leb (length rows) page_size in
    let first = take page_size rows in
    record {
      total_size = length rows;
      done = done;
      records = first;
      next = if done then none else last_stamp_of first;
    }

-- `_build_page`
unfoldable pub build_page : Sobject → ℕ → Corpus → Option ℕ → Page
build_page s page_size c since = page_of page_size (query s since c)

abbrev pub followed : Page → Option ℕ → (ℕ → Option (List Page)) → Option (List Page)
followed page none go = some (page ∷ [])
followed page (some next) go = Option.map (◌∷◌ page) (go next)

-- `_pull_pages`: fuel bounds its loop.
unfoldable pub pull_pages : (Option ℕ → Page) → ℕ → Option ℕ → Option (List Page)
pull_pages fetch zero cursor = none
pull_pages fetch (suc fuel) cursor =
    let page = fetch cursor in
    if page.done
    then some (page ∷ [])
    else followed page page.next (λ next. pull_pages fetch fuel (some next))

-- `records_flat`
abbrev pub records_flat : List Page → List Row
records_flat [] = []
records_flat (p ∷ pages) = p.records ++ records_flat pages
