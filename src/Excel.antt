-- ===== src/Excel.antt =====
-- The validation of an Excel upload: services/libs/excel_validation, the worker that starts the
-- validation (services/workers/excel_validation_trigger) and the tasks of the validation
-- (services/pipeline/excel_validation).
pub mod Contract
pub mod Verdict
pub mod Trigger
pub mod Tasks
pub mod Emit
pub mod Safety
pub mod Route
