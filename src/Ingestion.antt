-- ===== src/Ingestion.antt =====
-- server/internal/ingestion: the public API that takes events in.
pub mod Request
pub mod Validation
pub mod Wire
pub mod Build
pub mod Handler
pub mod Middleware
pub mod Samples
mod Tests
