-- ===== src/Widgets/Laws.antt =====
-- The theorems on the widget module.
pub mod RowKey
pub mod Authorization
pub mod Changes
pub mod Reading
pub mod Claims
pub mod Replay
