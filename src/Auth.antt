-- ===== src/Auth.antt =====
-- backend/src/server/auth: tokens and the authorisation of requests.
pub mod Base64
pub mod Jwt
pub mod WithAuth
mod Tests
