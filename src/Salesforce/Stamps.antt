-- ===== src/Salesforce/Stamps.antt =====
-- The stamps of the corpus: no two records of a table ever have the same.
use fintech_data_platform.Prelude.{
  ℕ, zero, suc, ◌≤◌, ◌<◌, ◌≢◌, ◌≡◌, refl, String, List, [], ◌∷◌, ◌++◌, All, All-imp, arith,
}
use fintech_data_platform.Json.{Fields}
use fintech_data_platform.Salesforce.Corpus.{
  Change, Corpus, Row, Sobject, bump, bumped_at, change, changes, insert_record, insertion,
  mutation, next_stamp, set_table, table,
}

abbrev pub IsDistinct : List Row → Type 0
IsDistinct [] = Unit
IsDistinct (r ∷ rows) = All (λ (s : Row). r.stamp ≢ s.stamp) rows × IsDistinct rows

abbrev IsBelow : ℕ → List Row → Type 0
IsBelow n rows = All (λ (r : Row). r.stamp ≤ n) rows

abbrev IsWithin : ℕ → List Row → Type 0
IsWithin n rows = IsBelow n rows × IsDistinct rows

-- Every table has distinct stamps, and none later than the last.
abbrev pub IsStamped : Corpus → Type 0
IsStamped c =
    IsWithin c.last_stamp c.accounts
    × IsWithin c.last_stamp c.contacts
    × IsWithin c.last_stamp c.opportunities

next_stamp-later : (now : ℕ) (c : Corpus) → c.last_stamp < next_stamp now c
unfolding next_stamp
next_stamp-later now c = ground arith

raised : (n m : ℕ) (rows : List Row) → n < m → IsWithin n rows → IsWithin m rows
raised n m rows lt (below, distinct) = (All-imp rows (λ r h. omega (arith, h, lt)) below, distinct)

module _ (Q : ℕ → Type 0) where
  All-append :
      (rows : List Row) (r : Row)
      → All (λ (s : Row). Q s.stamp) rows
      → Q r.stamp
      → All (λ (s : Row). Q s.stamp) (rows ++ (r ∷ []))
  All-append [] r h p = (p, tt)
  All-append (s ∷ rows) r h p = (h.0, All-append rows r h.1 p)

  All-bumped_at :
      (k : ℕ) (attrs : Fields) (m : ℕ) (rows : List Row)
      → All (λ (s : Row). Q s.stamp) rows
      → Q m
      → All (λ (s : Row). Q s.stamp) (bumped_at k attrs m rows)
  All-bumped_at k attrs m [] h p = tt
  All-bumped_at zero attrs m (r ∷ rows) h p = (p, h.1)
  All-bumped_at (suc k) attrs m (r ∷ rows) h p = (h.0, All-bumped_at k attrs m rows h.1 p)

below_later :
    (n m : ℕ) (rows : List Row) → n < m → IsBelow n rows → All (λ (s : Row). m ≢ s.stamp) rows
below_later n m rows lt below = All-imp rows (λ s h. omega (arith, h, lt)) below

appended :
    (n m : ℕ) (rows : List Row) (r : Row)
    → n < m
    → r.stamp ≡ m
    → IsWithin n rows
    → IsWithin m (rows ++ (r ∷ []))
appended n m [] r lt e h = ((omega (arith, e), tt), (tt, tt))
appended n m (s ∷ rows) r lt e (below, distinct) =
    let (below', distinct') = appended n m rows r lt e (below.1, distinct.1) in
    (
      (omega (arith, below.0), below'),
      (All-append (λ t. s.stamp ≢ t) rows r distinct.0 (omega (arith, below.0, e)), distinct'),
    )

bumped :
    (n m k : ℕ) (attrs : Fields) (rows : List Row)
    → n < m
    → IsWithin n rows
    → IsWithin m (bumped_at k attrs m rows)
bumped n m k attrs [] lt h = (tt, tt)
bumped n m zero attrs (r ∷ rows) lt (below, distinct) = (
  (omega arith, (raised n m rows lt (below.1, distinct.1)).0),
  (below_later n m rows lt below.1, distinct.1),
)
bumped n m (suc k) attrs (r ∷ rows) lt (below, distinct) =
    let (below', distinct') = bumped n m k attrs rows lt (below.1, distinct.1) in
    (
      (omega (arith, below.0), below'),
      (
        All-bumped_at (λ t. r.stamp ≢ t) k attrs m rows distinct.0 (omega (arith, below.0)),
        distinct',
      ),
    )

abbrev new_row : String → Fields → ℕ → Row
new_row id attrs stamp = record { id = id; stamp = stamp; attrs = attrs }

insert_record-IsStamped :
    (s : Sobject) (id : String) (attrs : Fields) (now : ℕ) (c : Corpus)
    → IsStamped c
    → IsStamped (insert_record s id attrs now c)
unfolding insert_record
insert_record-IsStamped s id attrs now c (a, o, p) = placed s
  where
    later : c.last_stamp < next_stamp now c
    later = next_stamp-later now c

    placed :
        (s : Sobject)
        → IsStamped (
            set_table s
              (table s c ++ (new_row id attrs (next_stamp now c) ∷ []))
              (record c { last_stamp = next_stamp now c }))
    placed Sobject.account = (
      appended _ _ c.accounts (new_row id attrs (next_stamp now c)) later refl a,
      raised _ _ c.contacts later o,
      raised _ _ c.opportunities later p,
    )
    placed Sobject.contact = (
      raised _ _ c.accounts later a,
      appended _ _ c.contacts (new_row id attrs (next_stamp now c)) later refl o,
      raised _ _ c.opportunities later p,
    )
    placed Sobject.opportunity = (
      raised _ _ c.accounts later a,
      raised _ _ c.contacts later o,
      appended _ _ c.opportunities (new_row id attrs (next_stamp now c)) later refl p,
    )

bump-IsStamped :
    (s : Sobject) (n : ℕ) (attrs : Fields) (now : ℕ) (c : Corpus)
    → IsStamped c
    → IsStamped (bump s n attrs now c)
unfolding bump
bump-IsStamped s n attrs now c (a, o, p) = placed s
  where
    later : c.last_stamp < next_stamp now c
    later = next_stamp-later now c

    placed :
        (s : Sobject)
        → IsStamped (
            set_table s
              (bumped_at n attrs (next_stamp now c) (table s c))
              (record c { last_stamp = next_stamp now c }))
    placed Sobject.account = (
      bumped _ _ n attrs c.accounts later a,
      raised _ _ c.contacts later o,
      raised _ _ c.opportunities later p,
    )
    placed Sobject.contact = (
      raised _ _ c.accounts later a,
      bumped _ _ n attrs c.contacts later o,
      raised _ _ c.opportunities later p,
    )
    placed Sobject.opportunity = (
      raised _ _ c.accounts later a,
      raised _ _ c.contacts later o,
      bumped _ _ n attrs c.opportunities later p,
    )

-- Whatever is seeded and changed, in any order and at any times of the clock, later or earlier, no
-- two records of a table have the same stamp, and none is later than the last that was given out.
pub changes-IsStamped : (xs : List Change) (c : Corpus) → IsStamped c → IsStamped (changes xs c)
unfolding changes change
changes-IsStamped [] c h = h
changes-IsStamped (insertion s id attrs now ∷ xs) c h =
    changes-IsStamped xs (insert_record s id attrs now c)
      (insert_record-IsStamped s id attrs now c h)
changes-IsStamped (mutation s n attrs now ∷ xs) c h =
    changes-IsStamped xs (bump s n attrs now c) (bump-IsStamped s n attrs now c h)
