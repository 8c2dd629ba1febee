-- ===== src/Salesforce/Corpus.antt =====
-- services/workers/salesforce-mock-api/corpus.py: the records of the mock API, with the time of
-- their last change. What the source draws at random (ids, attributes, which record changes) and
-- the clock are arguments.
use fintech_data_platform.Prelude.{
  ℕ, zero, suc, ◌+◌, String, Bool, ◌&&◌, ◌||◌, Option, none, some, List, [], ◌∷◌, ◌++◌, keep, leb,
  ltb, eqb, if◌then◌else◌,
}
use fintech_data_platform.Prelude.Text.{text_less}
use fintech_data_platform.Json.{Fields}

-- `_Record`; the stamp is in microseconds.
pub record Row : Type 0 where
  pub id : String
  pub stamp : ℕ
  pub attrs : Fields

pub data Sobject : Type 0 where
  account contact opportunity : Sobject

pub record Corpus : Type 0 where
  pub accounts : List Row
  pub contacts : List Row
  pub opportunities : List Row
  pub last_stamp : ℕ

abbrev pub table : Sobject → Corpus → List Row
table Sobject.account c = c.accounts
table Sobject.contact c = c.contacts
table Sobject.opportunity c = c.opportunities

abbrev pub set_table : Sobject → List Row → Corpus → Corpus
set_table Sobject.account rows c = record c { accounts = rows }
set_table Sobject.contact rows c = record c { contacts = rows }
set_table Sobject.opportunity rows c = record c { opportunities = rows }

-- `_next_stamp`: the clock, or a millisecond behind the last stamp
unfoldable pub next_stamp : ℕ → Corpus → ℕ
next_stamp now c = if leb now c.last_stamp then c.last_stamp + 1000 else now

-- `_insert_record`
unfoldable pub insert_record : Sobject → String → Fields → ℕ → Corpus → Corpus
unfolding next_stamp
insert_record s id attrs now c =
    let stamp = next_stamp now c in
    set_table s (table s c ++ (record { id = id; stamp = stamp; attrs = attrs } ∷ []))
      (record c { last_stamp = stamp })

-- the record at a place gets other attributes and a stamp
abbrev pub bumped_at : ℕ → Fields → ℕ → List Row → List Row
bumped_at n attrs stamp [] = []
bumped_at zero attrs stamp (r ∷ rs) = record r { attrs = attrs; stamp = stamp } ∷ rs
bumped_at (suc n) attrs stamp (r ∷ rs) = r ∷ bumped_at n attrs stamp rs

-- `_bump`
unfoldable pub bump : Sobject → ℕ → Fields → ℕ → Corpus → Corpus
unfolding next_stamp
bump s n attrs now c =
    let stamp = next_stamp now c in
    set_table s (bumped_at n attrs stamp (table s c)) (record c { last_stamp = stamp })

-- What the seeding and the mutations do, one call after another.
pub data Change : Type 0 where
  insertion : Sobject → String → Fields → ℕ → Change
  mutation : Sobject → ℕ → Fields → ℕ → Change

unfoldable pub change : Change → Corpus → Corpus
unfolding insert_record bump
change (Change.insertion s id attrs now) = insert_record s id attrs now
change (Change.mutation s n attrs now) = bump s n attrs now

-- `_seed` and `mutate_once`, in any number
unfoldable pub changes : List Change → Corpus → Corpus
unfolding change
changes [] c = c
changes (x ∷ xs) c = changes xs (change x c)

-- a corpus before its seeding
abbrev pub unseeded : ℕ → Corpus
unseeded stamp = record { accounts = []; contacts = []; opportunities = []; last_stamp = stamp }

abbrev pub is_since : Option ℕ → Row → Bool
is_since none r = Bool.true
is_since (some since) r = ltb since r.stamp

-- the order of the sort's key, the pair of the stamp and the id
abbrev pub comes_before : Row → Row → Bool
comes_before r s = ltb r.stamp s.stamp || (eqb r.stamp s.stamp && text_less r.id s.id)

-- A row goes before the first row that does not come before it, in a stable sort.
unfoldable pub insert_row : Row → List Row → List Row
insert_row r [] = r ∷ []
insert_row r (s ∷ rows) =
    let rest = insert_row r rows in if comes_before s r then s ∷ rest else r ∷ s ∷ rows

unfoldable pub sort_rows : List Row → List Row
unfolding insert_row
sort_rows [] = []
sort_rows (r ∷ rows) = insert_row r (sort_rows rows)

-- `Corpus.query` with no limit; which attributes of a record are shown is left out.
unfoldable pub query : Sobject → Option ℕ → Corpus → List Row
unfolding sort_rows
query s since c = sort_rows (keep (is_since since) (table s c))
