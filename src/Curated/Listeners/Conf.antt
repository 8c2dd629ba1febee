-- ===== src/Curated/Listeners/Conf.antt =====
-- What the conf of a silver run carries.
use fintech_data_platform.Prelude.{
  [], ◌∷◌, ◌≡◌, refl, ap, subst, ◌∙◌, Bool, true, false, Option, none, some, arith, if◌then◌else◌,
}
use mathlib.Core.Option.{some-injective}
use fintech_data_platform.Json.{str, Fields, get, lookup, truthy, value_or_null}
use fintech_data_platform.Json.Dict.{lookup-put}
use fintech_data_platform.Library.{Library, dict_or_empty, str_of}
use fintech_data_platform.Prelude.Text.{concat}
use fintech_data_platform.Exec.{Result, chain_ok, ok, ok_inj, ◌>>>◌}
use fintech_data_platform.Consumer.{Delivered}
use fintech_data_platform.Curated.Specs.{SilverSpec, resolve_silver_spec, spec_of, text_or_empty}
use fintech_data_platform.Curated.Listeners.{
  TriggerEvent, applied, apply_bronze_event, bronze_event, parse_event_envelope, silver_conf,
  silver_trigger,
}

module _ (lib : Library) (m : Delivered) where
  -- A conf that stands for an event: it resolves to the spec whose names it carries, and has the
  -- event's run.
  pub record CarriesSpec (envelope conf : Fields) : Type 0 where
    pub spec : SilverSpec
    pub resolved : resolve_silver_spec lib envelope ≡ ok (some spec)
    pub resolves : resolve_silver_spec lib conf ≡ ok (some spec)
    pub domain : get "_curated_silver_domain" conf ≡ str spec.domain
    pub output_table : get "_curated_silver_output_table" conf ≡ str spec.output_table
    pub transform_id : get "_curated_silver_transform_id" conf ≡ str spec.transform_id
    pub run : get "run_id" conf ≡ get "run_id" envelope
    pub has_run : truthy (get "run_id" conf) ≡ true

  module _ (spec : SilverSpec) (envelope : Fields) where
    kept_payload : lookup "payload" (silver_conf lib m spec envelope) ≡ lookup "payload" envelope
    kept_payload = simp lookup-put

    kept_event_type :
        lookup "event_type" (silver_conf lib m spec envelope) ≡ lookup "event_type" envelope
    kept_event_type = simp lookup-put

    kept_run_id : lookup "run_id" (silver_conf lib m spec envelope) ≡ lookup "run_id" envelope
    kept_run_id = simp lookup-put

    has_domain :
        lookup "_curated_silver_domain" (silver_conf lib m spec envelope) ≡ some (str spec.domain)
    has_domain = simp lookup-put

    has_table :
        lookup "_curated_silver_output_table" (silver_conf lib m spec envelope)
        ≡ some (str spec.output_table)
    has_table = simp lookup-put

    has_transform :
        lookup "_curated_silver_transform_id" (silver_conf lib m spec envelope)
        ≡ some (str spec.transform_id)
    has_transform = simp lookup-put

    carries :
        resolve_silver_spec lib envelope ≡ ok (some spec)
        → truthy (get "run_id" envelope) ≡ true
        → CarriesSpec envelope (silver_conf lib m spec envelope)
    unfolding resolve_silver_spec
    carries q run = record {
      spec = spec;
      resolved = q;
      resolves =
          ap
            (λ o. dict_or_empty (value_or_null o) >>> λ payload. ok (
              spec_of lib (text_or_empty lib (get "event_type" (silver_conf lib m spec envelope)))
                payload))
            kept_payload
          ∙ ap
              (λ o. dict_or_empty (get "payload" envelope) >>> λ payload.
                ok (spec_of lib (text_or_empty lib (value_or_null o)) payload))
              kept_event_type
          ∙ q;
      domain = ap value_or_null has_domain;
      output_table = ap value_or_null has_table;
      transform_id = ap value_or_null has_transform;
      run = ap value_or_null kept_run_id;
      has_run = ap (λ o. truthy (value_or_null o)) kept_run_id ∙ run;
    }

  of_trigger :
      (envelope : Fields) (o : Option SilverSpec) {t : TriggerEvent}
      → resolve_silver_spec lib envelope ≡ ok o
      → silver_trigger lib m envelope o ≡ some t
      → CarriesSpec envelope t.conf
  of_trigger envelope none q h = cc
  of_trigger envelope (some spec) {t = t} q h = split (truthy (get "run_id" envelope)) refl h
    where
      split :
          (b : Bool)
          → truthy (get "run_id" envelope) ≡ b
          → (if b
              then some (record {
                trigger_run_id =
                    concat ("silver_curated_promotion__" ∷ str_of lib (get "run_id" envelope) ∷ []);
                conf = silver_conf lib m spec envelope;
              })
              else none)
            ≡ some t
          → CarriesSpec envelope t.conf
      split true run e =
          subst (λ (t : TriggerEvent). CarriesSpec envelope t.conf) (some-injective _ _ e)
            (carries spec envelope q run)
      split false run e = cc

  of_event :
      (envelope : Fields) {t : TriggerEvent}
      → bronze_event lib m envelope ≡ ok (some t)
      → CarriesSpec envelope t.conf
  of_event envelope {t = t} h =
      let (payload, (payload_eq, h1)) =
        chain_ok (dict_or_empty (get "payload" envelope)) _ (passed _ h) in
      let (spec, (spec_eq, h2)) = chain_ok (resolve_silver_spec lib envelope) _ (passed _ h1) in
      of_trigger envelope spec spec_eq (ok_inj h2)
    where
      passed :
          (b : Bool) {r : Result (Option TriggerEvent)}
          → (if b then ok none else r) ≡ ok (some t)
          → r ≡ ok (some t)
      passed true e = cc
      passed false e = e

  of_parsed :
      (o : Option Fields) {t : TriggerEvent}
      → applied (bronze_event lib m) o ≡ ok (some t)
      → (envelope : Fields) × (o ≡ some envelope) × CarriesSpec envelope t.conf
  of_parsed none h = absurd (ground (arith, ok_inj h))
  of_parsed (some envelope) h = (envelope, refl, of_event envelope h)

  -- An event for which the listener starts a run is a message that is read, and the conf of the run
  -- resolves to the spec of the event, carries the names of that spec, and has the event's run, which
  -- is there: what is attached to the event hides nothing that is read of it.
  pub silver_run_of_event :
      (t : TriggerEvent)
      → apply_bronze_event lib m ≡ ok (some t)
      → (envelope : Fields) × (parse_event_envelope lib m ≡ some envelope)
        × CarriesSpec envelope t.conf
  unfolding apply_bronze_event
  silver_run_of_event t h = of_parsed (parse_event_envelope lib m) h
