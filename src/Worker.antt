-- ===== src/Worker.antt =====
-- server/internal/worker: the service that stores the queued events.
pub mod PriceCache
pub mod BatchWriter
pub mod Uploader
pub mod Message
pub mod Inserted
mod Tests
mod MessageTests
mod InsertTests
