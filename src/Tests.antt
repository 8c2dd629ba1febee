-- ===== src/Tests.antt =====
-- Runs of the definitions on concrete inputs, and the theorems applied to them.
mod Sample
mod Store
mod Workers
mod Batching
mod Masks
mod Events
mod Uploads
mod Pulls
mod Promotions
mod Steps
