-- ===== src/Examples.antt =====
-- Concrete runs of the theorems, and the test data that they share.
mod Data
mod Widgets
mod Workers
mod Auth
mod Server
mod Forge
mod Migrations
mod Publication
mod Process
mod Resources
mod Repository
