-- ===== src/Redact/Laws.antt =====
-- The theorems on the redaction of logs.
pub mod Values
pub mod Calls
