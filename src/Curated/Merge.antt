-- ===== src/Curated/Merge.antt =====
-- The MERGE statements of services/pipeline/silver_curated/tasks/merge_into_silver.py
-- (`_merge_opportunity`, `_merge_account`, `_merge_dim_loan`), as what they do to the rows of the
-- table. A column stands by the text of its value after the casts, and none is NULL. The times of
-- the source are after the COALESCE, so they are never NULL. As SQL has it, a row of the table that
-- more than one row of the source matches is an error.
pub mod Versions
use fintech_data_platform.Prelude.{
  ℕ, String, Bool, true, false, not, ◌||◌, ◌&&◌, ◌==◌, Option, none, some, List, [], ◌∷◌, ◌++◌, any,
  count, find, keep, leb, map, if◌then◌else◌,
}
use fintech_data_platform.Exec.{ErrorKind, Result, err, failure, ok}

abbrev pub Cell : Type 0
Cell = Option String

-- `a IS DISTINCT FROM b`
abbrev pub is_distinct : Cell → Cell → Bool
is_distinct none none = false
is_distinct (some s) (some t) = not (s == t)
is_distinct _ _ = true

-- A row of the source: its key, its other columns and `source_system_mod`.
pub record Source (A : Type 0) : Type 0 where
  pub key : String
  pub columns : A
  pub modified : ℕ

-- A row of a table of versions.
pub record Version (A : Type 0) : Type 0 where
  pub key : String
  pub columns : A
  pub valid_from : ℕ
  pub valid_to : Option ℕ
  pub is_current : Bool

module _ {A : Type 0} (changed : A → A → Bool) where
  -- the ON clause
  abbrev pub matches : Source A → Version A → Bool
  matches s v = v.key == s.key && v.is_current

  -- WHEN MATCHED AND a compared column is distinct THEN UPDATE
  abbrev pub closed_by : Option (Source A) → Version A → Version A
  closed_by none v = v
  closed_by (some s) v =
      if changed v.columns s.columns
      then record v { valid_to = some s.modified; is_current = false }
      else v

  -- WHEN NOT MATCHED THEN INSERT
  abbrev pub inserted : Source A → Version A
  inserted s = record {
    key = s.key;
    columns = s.columns;
    valid_from = s.modified;
    valid_to = none;
    is_current = true;
  }

  abbrev pub is_ambiguous : List (Source A) → Version A → Bool
  is_ambiguous sources v = leb 2 (count (λ s. matches s v) sources)

  abbrev pub updated : List (Source A) → Version A → Version A
  updated sources v = closed_by (find (λ s. matches s v) sources) v

  abbrev pub unmatched : List (Version A) → Source A → Bool
  unmatched target s = not (any (λ v. matches s v) target)

  unfoldable pub merge : List (Source A) → List (Version A) → Result (List (Version A))
  merge sources target =
      if any (is_ambiguous sources) target
      then err (failure ErrorKind.external_error "one target row matched more than one source row")
      else ok (map (updated sources) target ++ map inserted (keep (unmatched target) sources))

-- The columns of `dim_opportunity`, and those that are compared.
pub record Opportunity : Type 0 where
  pub account_id_token : Cell
  pub name : Cell
  pub stage_name : Cell
  pub amount : Cell
  pub close_date : Cell
  pub is_won : Cell
  pub is_closed : Cell

abbrev pub opportunity_changed : Opportunity → Opportunity → Bool
opportunity_changed a b =
    is_distinct a.stage_name b.stage_name
    || is_distinct a.amount b.amount
    || is_distinct a.close_date b.close_date
    || is_distinct a.is_won b.is_won
    || is_distinct a.is_closed b.is_closed

-- The columns of `dim_account`.
pub record Account : Type 0 where
  pub name : Cell
  pub industry : Cell
  pub annual_revenue : Cell
  pub number_of_employees : Cell

abbrev pub account_changed : Account → Account → Bool
account_changed a b =
    is_distinct a.name b.name
    || is_distinct a.industry b.industry
    || is_distinct a.annual_revenue b.annual_revenue
    || is_distinct a.number_of_employees b.number_of_employees

-- The columns of `dim_loan`.
pub record Loan : Type 0 where
  pub account_id : Cell
  pub status_code : Cell
  pub principal_balance : Cell
  pub days_past_due : Cell

abbrev pub loan_changed : Loan → Loan → Bool
loan_changed a b =
    is_distinct a.status_code b.status_code
    || is_distinct a.principal_balance b.principal_balance
    || is_distinct a.days_past_due b.days_past_due

-- `_merge_opportunity`
abbrev pub merge_opportunity :
    List (Source Opportunity) → List (Version Opportunity) → Result (List (Version Opportunity))
merge_opportunity = merge opportunity_changed

-- `_merge_account`
abbrev pub merge_account :
    List (Source Account) → List (Version Account) → Result (List (Version Account))
merge_account = merge account_changed

-- `_merge_dim_loan`
abbrev pub merge_dim_loan : List (Source Loan) → List (Version Loan) → Result (List (Version Loan))
merge_dim_loan = merge loan_changed
