-- ===== src/Outbox/Laws.antt =====
-- The theorems on the outbox.
pub mod Steps
pub mod Marks
pub mod Purging
pub mod Backlog
pub mod Draining
pub mod Storable
