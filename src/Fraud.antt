-- ===== src/Fraud.antt =====
-- services/workers/fraud_worker: the scorer and the handler.
pub mod Scorer
pub mod Raw
pub mod Handler
pub mod Safety
pub mod Flags
pub mod Loop
