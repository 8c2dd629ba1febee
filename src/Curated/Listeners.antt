-- ===== src/Curated/Listeners.antt =====
-- The listeners of services/pipeline/silver_curated/listener.py and gold_curated/listener.py, with
-- `parse_event_envelope`, `attach_trigger_metadata` and `build_trigger_event` of
-- curated_dag_helpers.py. A sensor calls them for each message; starting a run is Airflow's.
pub mod Conf
use fintech_data_platform.Prelude.{
  ℕ, String, Bool, true, false, not, ◌||◌, ◌==◌, Option, none, some, [], ◌∷◌, if◌then◌else◌,
}
use fintech_data_platform.Prelude.Int.{pos}
use fintech_data_platform.Prelude.Text.{concat}
use fintech_data_platform.Json.{Value, int, str, obj, Fields, get, puts, truthy}
use fintech_data_platform.Library.{Library, dict_or_empty, str_of}
use fintech_data_platform.Exec.{ErrorKind, Result, err, ok, ◌>>>◌}
use fintech_data_platform.Consumer.{Delivered}
use fintech_data_platform.Curated.Specs.{
  GoldMetricSpec, SilverSpec, resolve_gold_metric, resolve_silver_spec, text_or_empty,
}

abbrev topic_silver_completed : String
topic_silver_completed = "pipeline.silver.completed.v1"

-- `build_trigger_event`: the id of the run and its conf
pub record TriggerEvent : Type 0 where
  pub trigger_run_id : String
  pub conf : Fields

-- `v == text` of a value
abbrev pub is_text : String → Value → Bool
is_text t (str s) = s == t
is_text t v = false

abbrev pub is_bronze_topic : Value → Bool
is_bronze_topic v =
    is_text "ingest.salesforce.bronze.ready.v1" v
    || is_text "cdc.oltp.bronze.ready.v1" v
    || is_text "ingest.excel.bronze.ready.v1" v

-- `attach_trigger_metadata`
abbrev pub attach_trigger_metadata : Delivered → Fields → Fields
attach_trigger_metadata m = puts (
    ("_trigger_topic", str m.topic)
    ∷ ("_trigger_partition", int (pos m.partition))
    ∷ ("_trigger_offset", int (pos m.offset))
    ∷ [])

-- What is no event is passed over.
abbrev pub applied :
    (Fields → Result (Option TriggerEvent)) → Option Fields → Result (Option TriggerEvent)
applied f none = ok none
applied f (some envelope) = f envelope

module _ (lib : Library) where
  abbrev envelope_of : Result Value → Option Fields
  envelope_of (ok (obj fs)) = some fs
  envelope_of _ = none

  -- `parse_event_envelope`; the errors of `json.loads` are all `ValueError`s, or the `TypeError` of a
  -- tombstone.
  unfoldable pub parse_event_envelope : Delivered → Option Fields
  parse_event_envelope m = elim m.value [ none ↦ none | some text ↦ envelope_of (lib.loads text) ]

  abbrev pub silver_conf : Delivered → SilverSpec → Fields → Fields
  silver_conf m spec envelope =
      puts
        (("_curated_silver_domain", str spec.domain)
          ∷ ("_curated_silver_output_table", str spec.output_table)
          ∷ ("_curated_silver_transform_id", str spec.transform_id)
          ∷ [])
        (attach_trigger_metadata m envelope)

  abbrev pub silver_trigger : Delivered → Fields → Option SilverSpec → Option TriggerEvent
  silver_trigger m envelope none = none
  silver_trigger m envelope (some spec) =
      if truthy (get "run_id" envelope)
      then some (record {
        trigger_run_id =
            concat ("silver_curated_promotion__" ∷ str_of lib (get "run_id" envelope) ∷ []);
        conf = silver_conf m spec envelope;
      })
      else none

  abbrev pub bronze_event : Delivered → Fields → Result (Option TriggerEvent)
  bronze_event m envelope =
      if not (is_bronze_topic (get "event_type" envelope))
      then ok none
      else (dict_or_empty (get "payload" envelope) >>> λ payload.
          if not (is_text "bronze" (get "stage" payload))
          then ok none
          else (resolve_silver_spec lib envelope >>> λ spec. ok (silver_trigger m envelope spec)))

  -- `apply_bronze_event`
  unfoldable pub apply_bronze_event : Delivered → Result (Option TriggerEvent)
  unfolding parse_event_envelope resolve_silver_spec str_of
  apply_bronze_event m = applied (bronze_event m) (parse_event_envelope m)

  abbrev gold_trigger : Delivered → Fields → Option GoldMetricSpec → Option TriggerEvent
  gold_trigger m envelope none = none
  gold_trigger m envelope (some spec) = some (record {
    trigger_run_id =
        concat ("gold_curated_aggregation__" ∷ str_of lib (get "run_id" envelope) ∷ []);
    conf = attach_trigger_metadata m envelope;
  })

  abbrev pub silver_event : Delivered → Fields → Result (Option TriggerEvent)
  silver_event m envelope =
      if not (is_text topic_silver_completed (get "event_type" envelope))
        || not (truthy (get "run_id" envelope))
      then ok none
      else (dict_or_empty (get "payload" envelope) >>> λ payload.
          let domain = text_or_empty lib (get "silver_domain" payload) in
          if domain == ""
          then ok none
          else ok (gold_trigger m envelope (resolve_gold_metric domain)))

  -- `apply_silver_event`
  unfoldable pub apply_silver_event : Delivered → Result (Option TriggerEvent)
  unfolding parse_event_envelope resolve_gold_metric str_of
  apply_silver_event m = applied (silver_event m) (parse_event_envelope m)
