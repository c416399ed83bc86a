-- ===== src/Log.antt =====
-- What the log of activities keeps (src/v1/log).
pub mod Body
pub mod Paths
pub mod Audit
pub mod Intercept
mod Tests
