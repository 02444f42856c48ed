-- ===== src/Server.antt =====
-- internal/server: the middlewares of the public router, the probes and the admin guard.
pub mod Addr
pub mod RealIp
pub mod RateLimit
pub mod Cors
pub mod Limits
pub mod Recover
pub mod Probes
pub mod Router
pub mod Laws
