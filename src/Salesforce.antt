-- ===== src/Salesforce.antt =====
-- The incremental pull of Salesforce records (services/pipeline/salesforce_pull) and the API that it
-- pulls from in this repository (services/workers/salesforce-mock-api).
pub mod Corpus
pub mod Stamps
pub mod Sorted
pub mod Pages
pub mod Pull
pub mod Safety
