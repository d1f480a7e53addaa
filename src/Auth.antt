-- ===== src/Auth.antt =====
-- The stores behind the authentication endpoints: the part of the service under `src/auth`.
pub mod DiskCache
pub mod Memory
mod Tests
pub mod TokenStore
pub mod Clients
pub mod CodeStore
pub mod Grant
pub mod Jwt
pub mod RateLimiter
