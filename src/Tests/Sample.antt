-- ===== src/Tests/Sample.antt =====
-- The outside of the tests: a clock that counts, a broker of one partition, no failures.
use fintech_data_platform.Prelude.{ℕ, String, false, none, some, [], ◌∷◌, ◌==◌, if◌then◌else◌}
use fintech_data_platform.Prelude.Int.{pos}
use fintech_data_platform.Prelude.Text.{concat, show}
use fintech_data_platform.Json.{Value, str, nil, obj, Fields, dict}
use fintech_data_platform.Decimal.{Amount}
use fintech_data_platform.Library.{Library, aware}
use fintech_data_platform.Exec.{Result, ok, err, failure, ErrorKind}
use fintech_data_platform.World.{Env, Fault, World, start}
use fintech_data_platform.World.Committed.{IsStored}

abbrev pub thousand : Amount
thousand = Amount.finite false (record { coeff = 1000; places = 0 })

abbrev pub change : Fields
change = dict (
    ("op", str "c")
    ∷ ("source", obj (dict (("schema", str "trading") ∷ ("table", str "transaction") ∷ [])))
    ∷ ("after", obj (dict (("transaction_id", str "t-1") ∷ ("amount", str "1000") ∷ [])))
    ∷ [])

-- An assessed event of one table, with an LSN.
abbrev pub assessed : String → String → Value
assessed table lsn = obj (
    dict (
      ("event_id", str "e-1")
      ∷ (
        "payload",
        obj (
            dict (
              ("source_table", str table)
              ∷ ("original_topic_metadata", obj (dict (("lsn", str lsn) ∷ [])))
              ∷ [])),
      )
      ∷ []))

abbrev load_text : String → Result Value
load_text text =
    if text == "change"
    then ok (obj change)
    else if text == "assessed"
    then ok (assessed "trading.loan" "0/16B5C10")
    else err (failure ErrorKind.json_decode_error "Expecting value")

abbrev pub sample_library : Library
sample_library = record {
  repr = λ v. "";
  decimal = λ text. some thousand;
  base64_int = λ text. none;
  from_isoformat = λ text. some (aware 0);
  int_of = λ v. ok (pos 0);
  float_of = λ v. ok thousand;
  list_of = λ v. ok nil;
  dumps = λ v. "{}";
  isoformat = λ t. "1970-01-01T00:00:00Z";
  uuid_of = λ text. some text;
  urlparse = λ text. ("s3", "lake", "/raw/source=excel/a.xlsx");
  equal = λ v w. false;
  less = λ v w. ok false;
  loads = load_text;
  calendar = λ t. (2026, 1, 2, 3);
  unquote_plus = λ text. text;
}

abbrev sample_hash : String
sample_hash = "sha256-0000000000000000000000000000000000000000000000000000000000000000"

abbrev pub env_with : (ℕ → Fault) → Env
env_with fault = record {
  uuid = λ n. concat ("id-" ∷ show n ∷ []);
  time = λ n. n;
  fault = fault;
  hash = λ fs. sample_hash;
  partition = λ topic key. 0;
  get_object = λ n bucket key. ok "page";
  library = sample_library;
}

abbrev pub sample_env : Env
sample_env = env_with (λ n. Fault.fine)

abbrev pub seeded : World
seeded = record start { transactions = "t-1" ∷ [] }

pub seeded-IsStored : IsStored seeded
seeded-IsStored = record {
  valid = record {
    unique_runs = tt;
    unique_positions = tt;
    events_known = tt;
    alerts_known = tt;
    accounted = tt;
  };
  evented = tt;
}
