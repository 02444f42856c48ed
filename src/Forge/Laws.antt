-- ===== src/Forge/Laws.antt =====
-- The theorems on the scaffolding command.
pub mod Strip
pub mod Scanning
pub mod Scripts
pub mod Catalog
pub mod Relations
pub mod Following
pub mod Versions
pub mod Names
pub mod Renumbering
pub mod Adding
pub mod Places
pub mod Identity
pub mod Triples
pub mod Loops
pub mod Recovering
pub mod Validating
pub mod Saving
pub mod Inside
pub mod Activation
pub mod Publishing
pub mod Working
pub mod Completing
pub mod Writes
pub mod Changes
