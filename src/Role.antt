-- ===== src/Role.antt =====
-- The roles of accounts (src/v1/auth/services/role.service.ts).
pub mod Service
pub mod Sound
pub mod Updates
pub mod Runs
mod Tests
