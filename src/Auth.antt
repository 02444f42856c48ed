-- ===== src/Auth.antt =====
-- internal/auth: bearer tokens, verifiers, principals and the middlewares that resolve them.
pub mod Principal
pub mod Bearer
pub mod Verifier
pub mod Middleware
pub mod Laws
