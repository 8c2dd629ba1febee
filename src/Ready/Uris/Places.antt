-- ===== src/Ready/Uris/Places.antt =====
-- Where `raw_uri_to_bronze_uri` puts an object, of both writers.
use Prim.Native.String.{◌++◌, count}
use Prim.Native.Char.{Char}
use text.Mathlib.TextLemmas.{
  length-append, length-cons, append_assoc, cons-append, cons-ne-nil, nil-append,
}
use fintech_data_platform.Prelude.{
  String, ◌≡◌, refl, ap, ◌∙◌, none, some, [], ◌∷◌, ◌==◌, true, false, Bool-cases, inl, inr,
  if◌then◌else◌, eq_iff, eq_refl, arith, ◌⊎◌, suc, ◌+◌, sym,
}
use fintech_data_platform.Prelude.Text.{concat}
use fintech_data_platform.Library.{Library}
use fintech_data_platform.Lake.{split_s3_uri}
use fintech_data_platform.Exec.{ok, ◌>>>◌}
use fintech_data_platform.Ready.Uris.{
  excel_bronze_uri, excel_place, object_uri, part_of, parent_of, parquet_name,
  salesforce_bronze_uri, salesforce_place, strip_prefix, strip_suffix,
}

strip_prefix-append : (p s : String) → strip_prefix p (p ++ s) ≡ some s
unfolding strip_prefix
strip_prefix-append String.[] s = ap some (nil-append s)
strip_prefix-append (String.◌∷◌ c p) s =
    ap (strip_prefix (String.◌∷◌ c p)) (cons-append c p s)
    ∙ ap (λ b. if b then strip_prefix p (p ++ s) else none) (eq_refl (String.◌∷◌ c String.[]))
    ∙ strip_prefix-append p s

-- A text is not that text with something before it.
longer : (s : String) (c : Char) (t : String) → (s == String.◌∷◌ c (t ++ s)) ≡ false
longer s c t = split (Bool-cases (s == String.◌∷◌ c (t ++ s)))
  where
    lengths : s ≡ String.◌∷◌ c (t ++ s) → count s ≡ suc (count t + count s)
    lengths e = ap count e ∙ length-cons c (t ++ s) ∙ ap suc (length-append t s)

    split :
        ((s == String.◌∷◌ c (t ++ s)) ≡ true) ⊎ ((s == String.◌∷◌ c (t ++ s)) ≡ false)
        → (s == String.◌∷◌ c (t ++ s)) ≡ false
    split (inl e) = absurd (omega (arith, lengths ((eq_iff s (String.◌∷◌ c (t ++ s))).0 e)))
    split (inr e) = e

strip_suffix_self : (s : String) → strip_suffix s s ≡ some ""
unfolding strip_suffix
strip_suffix_self String.[] = refl
strip_suffix_self (String.◌∷◌ c s) = rw (eq_refl (String.◌∷◌ c s)) refl

strip_suffix-append : (t s : String) → strip_suffix s (t ++ s) ≡ some t
unfolding strip_suffix
strip_suffix-append String.[] s = ap (strip_suffix s) (nil-append s) ∙ strip_suffix_self s
strip_suffix-append (String.◌∷◌ c t) s =
    ap (strip_suffix s) (cons-append c t s) ∙ rw (longer s c t, strip_suffix-append t s) refl

-- An `.xlsx` object has its name with `.parquet` for the ending.
parquet_name-xlsx : (stem : String) → parquet_name (stem ++ ".xlsx") ≡ stem ++ ".parquet"
unfolding parquet_name
parquet_name-xlsx stem = rw (strip_suffix-append stem ".xlsx", parquet_name) refl

-- `text` has no slash.
abbrev HasNoSlash : String → Type 0
HasNoSlash text = parent_of text ≡ none

parent_of-slash : (leaf : String) → HasNoSlash leaf → parent_of (String.◌∷◌ "/" leaf) ≡ some ""
unfolding parent_of
parent_of-slash leaf h = rw (h, parent_of) refl

parent_of-append :
    (d leaf : String) → HasNoSlash leaf → parent_of (d ++ String.◌∷◌ "/" leaf) ≡ some d
unfolding parent_of
parent_of-append String.[] leaf h =
    ap parent_of (nil-append (String.◌∷◌ "/" leaf)) ∙ parent_of-slash leaf h
parent_of-append (String.◌∷◌ c d) leaf h =
    ap parent_of (cons-append c d (String.◌∷◌ "/" leaf))
    ∙ rw (parent_of-append d leaf h, parent_of) refl

some_letter : (c : Char) (s : String) → (String.◌∷◌ c s == "") ≡ false
some_letter c s = split (Bool-cases (String.◌∷◌ c s == ""))
  where
    split :
        ((String.◌∷◌ c s == "") ≡ true) ⊎ ((String.◌∷◌ c s == "") ≡ false)
        → (String.◌∷◌ c s == "") ≡ false
    split (inl e) = absurd (cons-ne-nil c s ((eq_iff (String.◌∷◌ c s) "").0 e))
    split (inr e) = e

-- A raw Excel object `raw/source=excel/<stem>.xlsx` of a bucket has its bronze object at
-- `bronze/source=excel/<stem>.parquet` of that bucket.
pub excel_bronze_uri_lem :
    (lib : Library) (uri bucket stem : String)
    → split_s3_uri lib uri ≡ ok (bucket, "raw/source=excel/" ++ (stem ++ ".xlsx"))
    → excel_bronze_uri lib uri
      ≡ ok (concat ("s3://" ∷ bucket ∷ "/" ∷ ("bronze/source=excel/" ++ (stem ++ ".parquet")) ∷ []))
unfolding excel_bronze_uri
excel_bronze_uri_lem lib uri bucket stem h =
    ap (λ r. r >>> excel_place) h
    ∙ rw (strip_prefix-append "raw/source=excel/" (stem ++ ".xlsx"), excel_place)
        (ap (λ k. ok (object_uri bucket k)) named)
  where
    named :
        parquet_name ("bronze/source=excel/" ++ (stem ++ ".xlsx"))
        ≡ "bronze/source=excel/" ++ (stem ++ ".parquet")
    named =
        ap parquet_name (sym (append_assoc "bronze/source=excel/" stem ".xlsx"))
        ∙ parquet_name-xlsx ("bronze/source=excel/" ++ stem)
        ∙ append_assoc "bronze/source=excel/" stem ".parquet"

-- The raw pages of one folder of `raw/source=salesforce` have one bronze object, `part-0.parquet`
-- in the folder of that name of `bronze/source=salesforce`.
pub salesforce_bronze_uri_lem :
    (lib : Library) (uri bucket folder leaf : String)
    → HasNoSlash leaf
    → split_s3_uri lib uri
      ≡ ok (bucket, "raw/source=salesforce/" ++ (folder ++ String.◌∷◌ "/" leaf))
    → salesforce_bronze_uri lib uri
      ≡ ok (
          concat (
            "s3://"
            ∷ bucket
            ∷ "/"
            ∷ (("bronze/source=salesforce/" ++ folder) ++ "/part-0.parquet")
            ∷ []))
unfolding salesforce_bronze_uri
salesforce_bronze_uri_lem lib uri bucket folder leaf no_slash h =
    ap (λ r. r >>> salesforce_place) h
    ∙ rw
        (
          strip_prefix-append "raw/source=salesforce/" (folder ++ String.◌∷◌ "/" leaf),
          salesforce_place,
        )
        (ap (λ k. ok (object_uri bucket k)) placed)
  where
    filled : (("bronze/source=salesforce/" ++ folder) == "") ≡ false
    filled =
        ap (λ s. s == "") (cons-append "b" "ronze/source=salesforce/" folder)
        ∙ some_letter "b" ("ronze/source=salesforce/" ++ folder)

    placed :
        part_of (parent_of ("bronze/source=salesforce/" ++ (folder ++ String.◌∷◌ "/" leaf)))
        ≡ ("bronze/source=salesforce/" ++ folder) ++ "/part-0.parquet"
    placed =
        ap (λ k. part_of (parent_of k))
          (sym (append_assoc "bronze/source=salesforce/" folder (String.◌∷◌ "/" leaf)))
        ∙ ap part_of (parent_of-append ("bronze/source=salesforce/" ++ folder) leaf no_slash)
        ∙ ap
            (λ b.
              if b
              then "part-0.parquet"
              else ("bronze/source=salesforce/" ++ folder) ++ "/part-0.parquet")
            filled
