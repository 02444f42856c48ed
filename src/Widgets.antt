-- ===== src/Widgets.antt =====
-- internal/modules/widget: the example vertical slice, from the tables to the HTTP handlers.
pub mod Input
pub mod Service
pub mod Store
pub mod Responses
pub mod Handlers
pub mod Idempotent
pub mod Laws
