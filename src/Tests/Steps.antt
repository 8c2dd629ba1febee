-- ===== src/Tests/Steps.antt =====
-- The theorem on the components together, at an upload that is scanned and then taken up.
use fintech_data_platform.Exec.{ok}
use fintech_data_platform.Json.{nil, end}
use fintech_data_platform.World.{World}
use fintech_data_platform.World.Committed.{IsStored}
use fintech_data_platform.Excel.Emit.{validate_upload}
use fintech_data_platform.Scanner.Handler.{handle_record}
use fintech_data_platform.Salesforce.Pull.{Api, pull_sobject}
use fintech_data_platform.System.{
  Outside, here, next, reachable-IsStored, salesforce_pulled, scanned, validated,
}
use fintech_data_platform.Tests.Sample.{sample_env, seeded, seeded-IsStored}
use fintech_data_platform.Tests.Workers.{sample_config, sample_storage}
use fintech_data_platform.Tests.Batching.{sample_writer}
use fintech_data_platform.Tests.Events.{sample_converter, sample_tables}
use fintech_data_platform.Tests.Uploads.{sample_validation}

abbrev sample_api : Api
sample_api = record {
  base_url = "http://api";
  api_version = "v59.0";
  page_size = 2;
  bucket = "lake";
  pages = λ n soql. ok nil;
}

abbrev outside : Outside
outside = record {
  env = sample_env;
  storage = sample_storage;
  scanner = sample_config;
  validation = sample_validation;
  converter = sample_converter;
  tables = sample_tables;
  api = sample_api;
  writer = sample_writer;
  bucket = "lake";
}

abbrev pulled_world : World
pulled_world = (pull_sobject sample_env sample_api "Account" "2026-01-01" seeded).1

abbrev scanned_world : World
scanned_world = (handle_record sample_env sample_storage sample_config end "t" 0 0 pulled_world).1

abbrev last_world : World
last_world = (validate_upload sample_env sample_validation end scanned_world).1

reachable-IsStored_example : IsStored last_world
reachable-IsStored_example =
    reachable-IsStored outside
      (next (salesforce_pulled "Account" "2026-01-01" seeded) (
        next (scanned end "t" 0 0 pulled_world)
          (next (validated end scanned_world) (here last_world))))
      seeded-IsStored
