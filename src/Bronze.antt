-- ===== src/Bronze.antt =====
-- services/workers/cdc_bronze_writer: batches of assessed events become objects of the bronze layer.
pub mod Row
pub mod Flush
pub mod Batches
pub mod Publish
pub mod Safety
pub mod Loop
pub mod Sorting
pub mod Grouping
pub mod Losses
pub mod Passed
pub mod Offsets
pub mod Recorded
