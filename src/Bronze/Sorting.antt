-- ===== src/Bronze/Sorting.antt =====
-- The order of the rows of a table, for rows whose LSNs are texts or missing.
use fintech_data_platform.Prelude.{
  ℕ, ◌+◌, String, ◌≡◌, refl, Bool, true, false, Bool-cases, inl, inr, ◌==◌, eq_iff, List, [], ◌∷◌,
  count, ltb, All, arith, if◌then◌else◌,
}
use fintech_data_platform.Prelude.Text.{text_less, text_less_asym}
use fintech_data_platform.Json.{Value, null, str}
use fintech_data_platform.Library.{Library}
use fintech_data_platform.Exec.{ok}
use fintech_data_platform.Bronze.Row.{BatchRow}
use fintech_data_platform.Bronze.Flush.{key_less, sorts_before, insert_row, sorted_onto, lsn_text}

abbrev pub is_text : Value → Bool
is_text null = true
is_text (str s) = true
is_text _ = false

abbrev pub HasTextLsn : BatchRow → Type 0
HasTextLsn r = is_text r.source_lsn ≡ true

lsn_text_of : (s : String) → lsn_text (str s) ≡ str s
lsn_text_of s = elim (Bool-cases (s == "")) [ inl h ↦ rw (h, (eq_iff s "").0 h) | inr h ↦ rw h ]

ok_either : (b x y : Bool) → (if b then ok x else ok y) ≡ ok (if b then x else y)
ok_either true x y = refl
ok_either false x y = refl

module _ (lib : Library) where
  key_less-text :
      (s : String) (m : ℕ) (t : String) (n : ℕ)
      → key_less lib (str s) m (str t) n ≡ ok (if s == t then ltb m n else text_less s t)
  key_less-text s m t n =
      rw (lsn_text_of s, lsn_text_of t, ok_either (s == t) (ltb m n) (text_less s t))

  key_less-total :
      (a : Value) (m : ℕ) (b : Value) (n : ℕ)
      → is_text a ≡ true
      → is_text b ≡ true
      → (c : Bool) × (key_less lib a m b n ≡ ok c)
  key_less-total null m null n h k = (_, refl)
  key_less-total null m (str t) n h k = (_, refl)
  key_less-total (str s) m null n h k = (_, refl)
  key_less-total (str s) m (str t) n h k = (_, key_less-text s m t n)
  key_less-total _ m _ n h k = cc

  key_less-asym :
      (a : Value) (m : ℕ) (b : Value) (n : ℕ)
      → is_text a ≡ true
      → is_text b ≡ true
      → key_less lib a m b n ≡ ok true
      → key_less lib b n a m ≡ ok false
  key_less-asym null m null n h k e = ground arith
  key_less-asym null m (str t) n h k e = cc
  key_less-asym (str s) m null n h k e = refl
  key_less-asym (str s) m (str t) n h k e = ground (
    arith,
    key_less-text s m t n,
    key_less-text t n s m,
    eq_iff s t,
    eq_iff t s,
    text_less_asym s t,
  )
  key_less-asym _ m _ n h k e = cc

  -- No row goes before the one in front of it.
  abbrev pub Follows : BatchRow → List BatchRow → Type 0
  Follows r [] = Unit
  Follows r (x ∷ xs) = sorts_before lib x r ≡ ok false

  abbrev pub IsSorted : List BatchRow → Type 0
  IsSorted [] = Unit
  IsSorted (r ∷ rs) = Follows r rs × IsSorted rs

  -- What an insertion into `rs` gives: the rows of `rs` and the new one, in order, and in order
  -- behind what both may follow.
  record IsInserted (row : BatchRow) (rs rs' : List BatchRow) : Type 0 where
    result : insert_row lib row rs ≡ ok rs'
    texts : All HasTextLsn rs'
    sorted : IsSorted rs'
    follows : (r : BatchRow) → Follows r rs → sorts_before lib row r ≡ ok false → Follows r rs'
    counts : (p : BatchRow → Bool) → count p rs' ≡ count p (row ∷ rs)

  placed :
      (row x : BatchRow) (xs : List BatchRow) (b : Bool)
      → HasTextLsn row
      → All HasTextLsn (x ∷ xs)
      → IsSorted (x ∷ xs)
      → sorts_before lib row x ≡ ok b
      → (rest : List BatchRow) → IsInserted row xs rest
      → (rs' : List BatchRow) × IsInserted row (x ∷ xs) rs'
  unfolding sorts_before
  placed row x xs true h hs s e rest i = (
    row ∷ x ∷ xs,
    record {
      result = rw e;
      texts = (h, hs);
      sorted =
          (key_less-asym row.source_lsn row.kafka_offset x.source_lsn x.kafka_offset h hs.0 e, s);
      follows = λ r _ e'. e';
      counts = λ p. refl;
    },
  )
  placed row x xs false h hs s e rest i = (
    x ∷ rest,
    record {
      result = rw (e, i.result);
      texts = (hs.0, i.texts);
      sorted = (i.follows x s.0 e, i.sorted);
      follows = λ r f _. f;
      counts = λ p. ground (arith, i.counts p);
    },
  )

  inserted :
      (row : BatchRow) (rs : List BatchRow)
      → HasTextLsn row
      → All HasTextLsn rs
      → IsSorted rs
      → (rs' : List BatchRow) × IsInserted row rs rs'
  unfolding sorts_before
  inserted row [] h hs sorted = (
    row ∷ [],
    record {
      result = refl;
      texts = (h, tt);
      sorted = (tt, tt);
      follows = λ r _ e. e;
      counts = λ p. refl;
    },
  )
  inserted row (x ∷ xs) h hs s =
      let (b, e) =
        key_less-total row.source_lsn row.kafka_offset x.source_lsn x.kafka_offset h hs.0 in
      let (rest, i) = inserted row xs h hs.1 s.1 in placed row x xs b h hs s e rest i

  -- Rows whose LSNs are texts or missing are sorted: the result has the rows that were there, as
  -- often as they were, and no row goes before the one in front of it.
  pub sorted_onto_lem :
      (rows done : List BatchRow)
      → All HasTextLsn rows
      → All HasTextLsn done
      → IsSorted done
      → (out : List BatchRow) × ((sorted_onto lib rows done ≡ ok out)
          × (IsSorted out × ((p : BatchRow → Bool) → count p out ≡ count p rows + count p done)))
  unfolding sorted_onto
  sorted_onto_lem [] done h hs s = (done, (refl, (s, λ p. omega arith)))
  sorted_onto_lem (row ∷ rows) done h hs s =
      let (mid, i) = inserted row done h.0 hs s in
      let (out, (e, (so, c))) = sorted_onto_lem rows mid h.1 i.texts i.sorted in
      (out, (rw (i.result, e), (so, λ p. ground (arith, c p, i.counts p))))
