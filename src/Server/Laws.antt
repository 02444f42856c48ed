-- ===== src/Server/Laws.antt =====
-- The theorems on the middlewares.
pub mod RealIp
pub mod Limiters
pub mod Cors
pub mod Gates
pub mod Access
