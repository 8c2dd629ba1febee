-- ===== src/Curated/Specs.antt =====
-- services/pipeline/curated_specs.py: which silver table a bronze event goes to, and which gold
-- metric follows a silver domain.
use fintech_data_platform.Prelude.{String, ◌||◌, ◌==◌, Option, none, some, if◌then◌else◌}
use fintech_data_platform.Json.{Value, str, Fields, get, or_else}
use fintech_data_platform.Library.{Library, dict_or_empty, str_of}
use fintech_data_platform.Exec.{Result, ok, ◌>>>◌}

pub record SilverSpec : Type 0 where
  pub domain : String
  pub output_table : String
  pub transform_id : String

pub record GoldMetricSpec : Type 0 where
  pub metric : String
  pub output_table : String
  pub transform_id : String

abbrev silver : String → String → String → SilverSpec
silver domain table transform = record {
  domain = domain;
  output_table = table;
  transform_id = transform;
}

abbrev gold : String → String → String → GoldMetricSpec
gold metric table transform = record {
  metric = metric;
  output_table = table;
  transform_id = transform;
}

-- `_SILVER_BY_SALESFORCE_OBJECT`
abbrev pub silver_by_salesforce_object : String → Option SilverSpec
silver_by_salesforce_object name =
    if name == "Opportunity"
    then some (
        silver "salesforce_opportunity" "lakehouse.silver.dim_opportunity"
          "silver_curated_promotion_salesforce_opportunity")
    else if name == "Account"
    then some (
        silver "salesforce_account" "lakehouse.silver.dim_account"
          "silver_curated_promotion_salesforce_account")
    else none

-- `_SILVER_BY_CDC_TABLE`
abbrev pub silver_by_cdc_table : String → Option SilverSpec
silver_by_cdc_table table =
    if table == "trading.loan"
    then some (silver "loan" "lakehouse.silver.dim_loan" "silver_curated_promotion_dim_loan")
    else if table == "trading.loan_payment"
    then some (
        silver "loan_payment" "lakehouse.silver.fact_loan_payment"
          "silver_curated_promotion_fact_loan_payment")
    else if table == "trading.loan_status_history"
    then some (
        silver "loan_status_history" "lakehouse.silver.loan_status_history"
          "silver_curated_promotion_loan_status_history")
    else none

-- `_SILVER_EXCEL_COMMISSION`, for the contracts that have it
abbrev pub silver_by_contract : String → Option SilverSpec
silver_by_contract id =
    if id == "commission_adjustment_v1" || id == "payroll_v1" || id == ""
    then some (
        silver "commission_adjustment" "lakehouse.silver.fact_commission_adjustment"
          "silver_curated_promotion_fact_commission_adjustment")
    else none

-- `resolve_gold_metric`
unfoldable pub resolve_gold_metric : String → Option GoldMetricSpec
resolve_gold_metric domain =
    if domain == "salesforce_opportunity"
    then some (
        gold "pipeline_conversion" "lakehouse.gold.kpi_pipeline_conversion"
          "gold_curated_aggregation_pipeline_conversion")
    else if domain == "loan"
    then some (
        gold "portfolio_health" "lakehouse.gold.kpi_portfolio_health"
          "gold_curated_aggregation_portfolio_health")
    else if domain == "loan_payment"
    then some (
        gold "payment_performance" "lakehouse.gold.kpi_payment_performance"
          "gold_curated_aggregation_payment_performance")
    else if domain == "commission_adjustment"
    then some (
        gold "commission_economics" "lakehouse.gold.kpi_commission_economics"
          "gold_curated_aggregation_commission_economics")
    else none

-- `str(v or "")`
abbrev pub text_or_empty : Library → Value → String
text_or_empty lib v = str_of lib (or_else v (str ""))

abbrev pub spec_of : Library → String → Fields → Option SilverSpec
spec_of lib event_type payload =
    if event_type == "ingest.salesforce.bronze.ready.v1"
    then silver_by_salesforce_object (
        str_of lib (or_else (get "object_name" payload) (or_else (get "sobject" payload) (str ""))))
    else if event_type == "cdc.oltp.bronze.ready.v1"
    then silver_by_cdc_table (text_or_empty lib (get "source_table" payload))
    else if event_type == "ingest.excel.bronze.ready.v1"
    then silver_by_contract (text_or_empty lib (get "schema_contract_id" payload))
    else none

-- `resolve_silver_spec`: a payload that is no dict raises at its first `get`.
unfoldable pub resolve_silver_spec : Library → Fields → Result (Option SilverSpec)
unfolding str_of
resolve_silver_spec lib envelope = dict_or_empty (get "payload" envelope) >>> λ payload.
    ok (spec_of lib (text_or_empty lib (get "event_type" envelope)) payload)
