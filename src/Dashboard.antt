-- ===== src/Dashboard.antt =====
-- server/internal/dashboard/handlers: the API behind the dashboard.
pub mod ApiKeys
pub mod Sessions
pub mod CacheKey
pub mod Settings
pub mod SignIn
pub mod Params
pub mod Answers
pub mod Plans
mod Tests
mod AnswerTests
mod SettingsTests
mod SignInTests
mod SessionTests
