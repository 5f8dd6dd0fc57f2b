-- ===== src/Storage.antt =====
-- server/internal/storage: what the services keep in Redis and PostgreSQL.
pub mod Redis
pub mod RateLimit
pub mod ApiKeys
pub mod RefreshTokens
pub mod Organizations
pub mod Accounts
pub mod AnswerCache
pub mod Events
pub mod Sql
pub mod Reader
pub mod Samples
mod Tests
mod ReaderTests
