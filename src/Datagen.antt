-- ===== src/Datagen.antt =====
-- server/internal/datagen: the prices of generated events.
pub mod EventId
pub mod Prices
pub mod Tests
