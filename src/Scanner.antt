-- ===== src/Scanner.antt =====
-- services/workers/excel_scanner/scanner.py
pub mod Upload
pub mod Gates
pub mod Handler
pub mod Verdicts
pub mod Recorded
pub mod Safety
pub mod Loop
