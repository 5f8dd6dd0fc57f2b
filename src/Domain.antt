-- ===== src/Domain.antt =====
-- server/internal/domain: the business types that the services share, with their methods.
pub mod Floats
pub mod Time
pub mod Tags
pub mod Event
pub mod Decimal
pub mod ObjectKey
pub mod OrgId
pub mod ApiKey
pub mod Account
pub mod Cost
pub mod Samples
mod Tests
