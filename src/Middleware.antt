-- ===== src/Middleware.antt =====
-- server/internal/middleware: what stands before the handlers of the dashboard API.
pub mod Session
pub mod Requests
mod Tests
