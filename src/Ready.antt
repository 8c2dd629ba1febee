-- ===== src/Ready.antt =====
-- services/workers/excel_bronze_writer and services/workers/salesforce_bronze_writer: from an event
-- that raw objects are ready to a bronze object, its event and the end of the run.
pub mod Uris
pub mod Excel
pub mod Columns
pub mod Salesforce
pub mod Safety
pub mod Loop
pub mod Raises
pub mod Recorded
