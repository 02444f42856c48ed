-- ===== src/Forge.antt =====
-- cmd/forge: the scaffolding command's work on texts.
pub mod Strip
pub mod Changes
pub mod Tokens
pub mod Schema
pub mod Numbers
pub mod Migrations
pub mod Versions
pub mod Names
pub mod Renumber
pub mod Identity
pub mod Edits
pub mod Checks
pub mod Adding
pub mod Paths
pub mod Publication
pub mod Recovery
pub mod Laws
