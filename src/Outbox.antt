-- ===== src/Outbox.antt =====
-- internal/outbox/outbox.go: the transactional outbox and its relay.
pub mod Text
pub mod Relay
pub mod Purge
pub mod Laws
