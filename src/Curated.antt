-- ===== src/Curated.antt =====
-- services/pipeline: the promotion from bronze to the silver and gold tables.
pub mod Specs
pub mod Listeners
pub mod Runs
pub mod Silver
pub mod Gold
pub mod Safety
pub mod Literals
pub mod Merge
pub mod Rows
