-- ===== src/Curated/Merge/Versions.antt =====
-- The current versions of a table after a merge.
use fintech_data_platform.Prelude.{
  ℕ, zero, suc, ◌≤◌, String, ◌≡◌, refl, ap, subst, All, and_iff, ◌∙◌, Bool, true, false, ◌&&◌, ◌==◌,
  Option, none, some, List, [], ◌∷◌, ◌++◌, any, count, count-append, find, keep, map, arith, eq_iff,
  if◌then◌else◌,
}
use fintech_data_platform.Exec.{Error, err, ok, ok_inj}
use fintech_data_platform.Curated.Merge.{
  Source, Version, closed_by, inserted, is_ambiguous, matches, merge, unmatched, updated,
}

module _ {A : Type 0} (changed : A → A → Bool) where
  -- a current version of a key
  abbrev pub is_version_of : String → Version A → Bool
  is_version_of k v = v.key == k && v.is_current

  abbrev pub is_source_of : String → Source A → Bool
  is_source_of k s = s.key == k

  abbrev pub current : String → List (Version A) → ℕ
  current k = count (is_version_of k)

  -- An update makes no version current.
  updated-current :
      (k : String) (sources : List (Source A)) (target : List (Version A))
      → current k (map (updated changed sources) target) ≤ current k target
  updated-current k sources [] = omega arith
  updated-current k sources (v ∷ target) =
      one (find (λ s. matches changed s v) sources) (updated-current k sources target)
    where
      one :
          (o : Option (Source A))
          → current k (map (updated changed sources) target) ≤ current k target
          → current k (closed_by changed o v ∷ map (updated changed sources) target)
            ≤ current k (v ∷ target)
      one none h = ground (arith, h)
      one (some s) h = ground (arith, h)

  -- What is inserted has no current version in the table.
  inserted-current :
      (k : String) (target : List (Version A)) (sources : List (Source A))
      → count (is_version_of k) (map (inserted changed) (keep (unmatched changed target) sources))
        ≤ count (is_source_of k) sources
  inserted-current k target [] = omega arith
  inserted-current k target (s ∷ sources) = ground (arith, inserted-current k target sources)

  -- A source row of a key that has a current version matches it.
  matched :
      (k : String) (s : Source A) (target : List (Version A))
      → (s.key == k) ≡ true
      → 1 ≤ current k target
      → any (λ v. matches changed s v) target ≡ true
  matched k s [] q h = absurd (omega (arith, h))
  matched k s (v ∷ target) q h =
      ground (arith, matched k s target q, eq_iff s.key k, eq_iff v.key k, eq_iff v.key s.key, h)

  -- No row is inserted for a key that has a current version.
  inserted-none :
      (k : String) (target : List (Version A)) (sources : List (Source A))
      → 1 ≤ current k target
      → count (is_version_of k) (map (inserted changed) (keep (unmatched changed target) sources))
        ≡ 0
  inserted-none k target [] h = refl
  inserted-none k target (s ∷ sources) h =
      ground (arith, inserted-none k target sources h, matched k s target, h)

  abbrev merged : List (Source A) → List (Version A) → List (Version A)
  merged sources target =
      map (updated changed sources) target
      ++ map (inserted changed) (keep (unmatched changed target) sources)

  merge-ok :
      (sources : List (Source A)) (target : List (Version A)) {result : List (Version A)}
      → merge changed sources target ≡ ok result
      → merged sources target ≡ result
  unfolding merge
  merge-ok sources target {result = result} h =
      split (any (is_ambiguous changed sources) target) _ h
    where
      split :
          (b : Bool) (e : Error)
          → (if b then err e else ok (merged sources target)) ≡ ok result
          → merged sources target ≡ result
      split true e h = cc
      split false e h = ok_inj h

  at_most_one :
      (k : String) (sources : List (Source A)) (target : List (Version A))
      → current k target ≤ 1
      → count (is_source_of k) sources ≤ 1
      → current k (merged sources target) ≤ 1
  at_most_one k sources target one distinct = split (current k target) refl
    where
      split : (n : ℕ) → current k target ≡ n → current k (merged sources target) ≤ 1
      split zero q = omega (
        arith,
        q,
        distinct,
        updated-current k sources target,
        inserted-current k target sources,
        count-append (is_version_of k) (map (updated changed sources) target)
            (map (inserted changed) (keep (unmatched changed target) sources)),
      )
      split (suc n) q = omega (
        arith,
        q,
        one,
        updated-current k sources target,
        inserted-none k target sources (omega (arith, q)),
        count-append (is_version_of k) (map (updated changed sources) target)
            (map (inserted changed) (keep (unmatched changed target) sources)),
      )

  -- A merge that ends leaves at most one current version of a key that had at most one, where the
  -- source has at most one row of that key.
  pub merge-current :
      (k : String) (sources : List (Source A)) (target result : List (Version A))
      → merge changed sources target ≡ ok result
      → current k target ≤ 1
      → count (is_source_of k) sources ≤ 1
      → current k result ≤ 1
  merge-current k sources target result h one distinct =
      subst (λ r. current k r ≤ 1) (merge-ok sources target h)
        (at_most_one k sources target one distinct)

  find-matches :
      (k : String) (v : Version A) (sources : List (Source A))
      → (v.key == k) ≡ true
      → v.is_current ≡ true
      → find (λ s. matches changed s v) sources ≡ find (is_source_of k) sources
  find-matches k v [] q c = refl
  find-matches k v (s ∷ sources) q c =
      ground
        (arith, find-matches k v sources q c, eq_iff v.key k, eq_iff v.key s.key, eq_iff s.key k)

  -- The current versions of `k` differ from `s` in a compared column.
  abbrev pub Differ : String → Source A → List (Version A) → Type 0
  Differ k s target =
      All (λ (v : Version A). is_version_of k v ≡ true → changed v.columns s.columns ≡ true) target

  stays_out :
      (k : String) (o : Option (Source A)) (v : Version A)
      → is_version_of k v ≡ false
      → is_version_of k (closed_by changed o v) ≡ false
  stays_out k none v h = h
  stays_out k (some s) v h = ground (arith, h)

  closed_out :
      (k : String) (s : Source A) (v : Version A)
      → changed v.columns s.columns ≡ true
      → is_version_of k (closed_by changed (some s) v) ≡ false
  closed_out k s v h = ground (arith, h)

  not_current :
      (k : String) (s : Source A) (sources : List (Source A)) (v : Version A)
      → find (is_source_of k) sources ≡ some s
      → (is_version_of k v ≡ true → changed v.columns s.columns ≡ true)
      → is_version_of k (updated changed sources v) ≡ false
  not_current k s sources v f d = split (is_version_of k v) refl
    where
      split :
          (b : Bool) → is_version_of k v ≡ b → is_version_of k (updated changed sources v) ≡ false
      split true q =
          let (key, is_current) = (and_iff (v.key == k) v.is_current).0 q in
          ap (λ o. is_version_of k (closed_by changed o v))
            (find-matches k v sources key is_current ∙ f)
          ∙ closed_out k s v (d q)
      split false q = stays_out k (find (λ s. matches changed s v) sources) v q

  updated-closed :
      (k : String) (s : Source A) (sources : List (Source A)) (target : List (Version A))
      → find (is_source_of k) sources ≡ some s
      → Differ k s target
      → current k (map (updated changed sources) target) ≡ 0
  updated-closed k s sources [] f d = refl
  updated-closed k s sources (v ∷ target) f d =
      ground (arith, updated-closed k s sources target f d.1, not_current k s sources v f d.0)

  -- The merge loses a changed record: a key that has a current version, and whose source row
  -- differs from it in a compared column, has no current version after the merge. The old version is
  -- closed, and no row is inserted for the new one.
  pub changed_key_is_lost :
      (k : String) (s : Source A) (sources : List (Source A)) (target result : List (Version A))
      → merge changed sources target ≡ ok result
      → find (is_source_of k) sources ≡ some s
      → 1 ≤ current k target
      → Differ k s target
      → current k result ≡ 0
  changed_key_is_lost k s sources target result h f some_version d =
      subst (λ r. current k r ≡ 0) (merge-ok sources target h)
        (omega (
          arith,
          updated-closed k s sources target f d,
          inserted-none k target sources some_version,
          count-append (is_version_of k) (map (updated changed sources) target)
              (map (inserted changed) (keep (unmatched changed target) sources)),
        ))
