-- ===== src/Excel/Verdict.antt =====
-- `validate_dataframe`: what a table has to be to pass.
use fintech_data_platform.Prelude.{
  String, ◌≡◌, ◌↔◌, refl, true, Option, none, some, List, [], ◌∷◌, ◌++◌, All, arith,
}
use fintech_data_platform.Excel.Contract.{
  Column, DataFrame, SchemaContract, ValidationError, column_of, dtype_matches, is_nil, errors_of,
  missing_error, null_error, type_error, validate_dataframe,
}

-- The rules, column by column; the second and the third are about the columns that there are.
abbrev HasColumn : DataFrame → String → Type 0
HasColumn df col = (c : Column) × (column_of df col ≡ some c)

abbrev HasType : DataFrame → String × String → Type 0
HasType df (col, expected) =
    (c : Column) → column_of df col ≡ some c → dtype_matches c.dtype expected ≡ true

abbrev HasNoNull : DataFrame → String → Type 0
HasNoNull df col = (c : Column) → column_of df col ≡ some c → c.null_count ≡ 0

pub record IsAccepted (df : DataFrame) (contract : SchemaContract) : Type 0 where
  pub present : All (HasColumn df) contract.required_columns
  pub typed : All (HasType df) contract.column_types
  pub filled : All (HasNoNull df) contract.disallow_null_columns

both_nil :
    (xs ys : List ValidationError)
    → (is_nil (xs ++ ys) ≡ true) ↔ ((is_nil xs ≡ true) × (is_nil ys ≡ true))
both_nil [] ys = (λ h. (refl, h), λ h. h.1)
both_nil (x ∷ xs) ys = (λ h. cc, λ h. h.0)

errors_of_iff :
    {A : Type 0} {P : A → Type 0} (f : A → List ValidationError) (xs : List A)
    → ((x : A) → (is_nil (f x) ≡ true) ↔ P x)
    → (is_nil (errors_of f xs) ≡ true) ↔ All P xs
errors_of_iff f [] each = (λ h. tt, λ h. refl)
errors_of_iff f (x ∷ xs) each = (
  λ h.
      let (first, rest) = (both_nil (f x) (errors_of f xs)).0 h in
      ((each x).0 first, (errors_of_iff f xs each).0 rest),
  λ h. (both_nil (f x) (errors_of f xs)).1 ((each x).1 h.0, (errors_of_iff f xs each).1 h.1),
)

module _ (df : DataFrame) where
  missing_iff : (col : String) → (is_nil (missing_error df col) ≡ true) ↔ HasColumn df col
  missing_iff col = split (column_of df col) refl
    where
      split :
          (o : Option Column)
          → column_of df col ≡ o
          → (is_nil (missing_error df col) ≡ true) ↔ HasColumn df col
      split none q = (λ h. ground arith, λ h. ground arith)
      split (some c) q = (λ h. (c, q), λ h. ground arith)

  type_iff : (t : String × String) → (is_nil (type_error df t) ≡ true) ↔ HasType df t
  type_iff (col, expected) = split (column_of df col) refl
    where
      split :
          (o : Option Column)
          → column_of df col ≡ o
          → (is_nil (type_error df (col, expected)) ≡ true) ↔ HasType df (col, expected)
      split none q = (λ h c e. cc, λ h. ground arith)
      split (some c) q = (λ h d e. ground (arith, h, e), λ h. ground (arith, h c q))

  null_iff : (col : String) → (is_nil (null_error df col) ≡ true) ↔ HasNoNull df col
  null_iff col = split (column_of df col) refl
    where
      split :
          (o : Option Column)
          → column_of df col ≡ o
          → (is_nil (null_error df col) ≡ true) ↔ HasNoNull df col
      split none q = (λ h c e. cc, λ h. ground arith)
      split (some c) q = (λ h d e. ground (arith, h, e), λ h. ground (arith, h c q))

  -- A table passes exactly if it has every required column, each column of the contract's types
  -- that it has is of a matching dtype, and none of the columns that it has among those that
  -- disallow nulls has one; the row count is that of the table.
  pub validate_dataframe_passes :
      (contract : SchemaContract)
      → (((validate_dataframe df contract).passed ≡ true) ↔ IsAccepted df contract)
        × ((validate_dataframe df contract).row_count ≡ df.rows)
  unfolding validate_dataframe
  validate_dataframe_passes contract = (
    (
      λ h.
          let (present, rest) = (both_nil _ _).0 h in
          let (typed, filled) = (both_nil _ _).0 rest in
          record {
            present =
                (errors_of_iff (missing_error df) contract.required_columns missing_iff).0 present;
            typed = (errors_of_iff (type_error df) contract.column_types type_iff).0 typed;
            filled =
                (errors_of_iff (null_error df) contract.disallow_null_columns null_iff).0 filled;
          },
      λ a. (both_nil _ _).1 (
        (errors_of_iff (missing_error df) contract.required_columns missing_iff).1 a.present,
        (both_nil _ _).1 (
          (errors_of_iff (type_error df) contract.column_types type_iff).1 a.typed,
          (errors_of_iff (null_error df) contract.disallow_null_columns null_iff).1 a.filled,
        ),
      ),
    ),
    refl,
  )
