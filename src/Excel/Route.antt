-- ===== src/Excel/Route.antt =====
-- Which branch the validation takes.
use fintech_data_platform.Prelude.{
  String, ◌≡◌, ◌↔◌, refl, ap, sym, some, ◌==◌, ◌∙◌, Bool, true, false, if◌then◌else◌,
}
use fintech_data_platform.Json.{Fields, bool, lookup, truthy}
use fintech_data_platform.Json.Dict.{lookup-put}
use fintech_data_platform.Library.{Library, item_of}
use fintech_data_platform.Exec.{Result, chain_ok, err, ok, ◌>>>◌}
use fintech_data_platform.Excel.Contract.{
  DataFrame, SchemaContract, ValidationResult, validate_dataframe,
}
use fintech_data_platform.Excel.Verdict.{IsAccepted, validate_dataframe_passes}
use fintech_data_platform.Excel.Tasks.{
  Validation, route_validation_outcome, shown_at, text_at, validate, with_result,
}

abbrev is_raw_branch : Result String → Bool
is_raw_branch (ok s) = s == "write_raw"
is_raw_branch (err e) = false

branch_iff :
    (b : Bool)
    → (◌≡◌ {A = Result String}
        (ok (if b then "write_raw" else "write_quarantine"))
        (ok "write_raw"))
      ↔ (b ≡ true)
branch_iff true = (λ h. refl, λ h. refl)
branch_iff false = (λ h. ap is_raw_branch h, λ h. cc)

route_when :
    (fs : Fields) (b : Bool)
    → lookup "passed" fs ≡ some (bool b)
    → route_validation_outcome fs ≡ ok (if b then "write_raw" else "write_quarantine")
unfolding route_validation_outcome
route_when fs b h =
    ap (λ o. item_of "passed" o >>> λ v. ok (if truthy v then "write_raw" else "write_quarantine"))
      h

module _ (lib : Library) where
  passed_lem :
      (contract : SchemaContract) (result : ValidationResult) (fs : Fields)
      → lookup "passed" (with_result lib contract result fs) ≡ some (bool result.passed)
  passed_lem contract result fs = simp lookup-put

  route_lem :
      (contract : SchemaContract) (result : ValidationResult) (fs : Fields)
      → route_validation_outcome (with_result lib contract result fs)
        ≡ ok (if result.passed then "write_raw" else "write_quarantine")
  route_lem contract result fs =
      route_when (with_result lib contract result fs) result.passed (passed_lem contract result fs)

  routed :
      (contract : SchemaContract) (df : DataFrame) (fs validated : Fields)
      → ok (with_result lib contract (validate_dataframe df contract) fs) ≡ ok validated
      → (route_validation_outcome validated ≡ ok "write_raw") ↔ IsAccepted df contract
  routed contract df fs validated h =
      let (to, from) = (validate_dataframe_passes df contract).0 in
      let result = validate_dataframe df contract in
      let branch : route_validation_outcome validated
          ≡ ok (if result.passed then "write_raw" else "write_quarantine") =
        ap (λ r. r >>> route_validation_outcome) (sym h) ∙ route_lem contract result fs in
      (
        λ r. to ((branch_iff result.passed).0 (sym branch ∙ r)),
        λ a. branch ∙ (branch_iff result.passed).1 (from a),
      )

  -- What a validation has read, and the branch that its result takes.
  pub record IsRouted (v : Validation) (downloaded validated : Fields) : Type 0 where
    pub contract_id : String
    pub payload : String
    pub contract : SchemaContract
    pub df : DataFrame
    pub named : shown_at lib "schema_contract_id" downloaded ≡ ok contract_id
    pub loaded : v.load_contract contract_id ≡ ok contract
    pub decoded : (text_at "_payload_b64" downloaded >>> v.b64_decode) ≡ ok payload
    pub read : v.load_workbook payload contract.sheet_name ≡ ok df
    pub branch : (route_validation_outcome validated ≡ ok "write_raw") ↔ IsAccepted df contract

  -- A validation that returns has read a contract and a table, and the branch that is then taken is
  -- the one that writes to raw exactly if the table is accepted by the contract.
  pub validate-route :
      (v : Validation) (downloaded validated : Fields)
      → validate lib v downloaded ≡ ok validated
      → IsRouted v downloaded validated
  unfolding validate
  validate-route v downloaded validated h =
      let (id, (id_eq, h1)) = chain_ok (shown_at lib "schema_contract_id" downloaded) _ h in
      let (contract, (contract_eq, h2)) = chain_ok (v.load_contract id) _ h1 in
      let (payload, (payload_eq, h3)) =
        chain_ok (text_at "_payload_b64" downloaded >>> v.b64_decode) _ h2 in
      let (df, (df_eq, h4)) = chain_ok (v.load_workbook payload contract.sheet_name) _ h3 in
      record {
        contract_id = id;
        payload = payload;
        contract = contract;
        df = df;
        named = id_eq;
        loaded = contract_eq;
        decoded = payload_eq;
        read = df_eq;
        branch = routed contract df downloaded validated h4;
      }
