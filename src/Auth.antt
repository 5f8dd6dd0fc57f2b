-- ===== src/Auth.antt =====
-- server/internal/auth: API keys, JWTs and refresh tokens.
pub mod ApiKeyText
pub mod Jwt
pub mod RefreshText
pub mod Samples
mod Tests
