-- ===== src/Auth/Laws.antt =====
-- The theorems on tokens, policy, verifiers and the resolution of principals.
pub mod Tokens
pub mod Policy
pub mod Selection
pub mod Resolution
