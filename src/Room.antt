-- ===== src/Room.antt =====
-- The rooms of a hotel (src/v1/room/services/room.service.ts).
pub mod Keys
pub mod Service
pub mod Numbers
pub mod Orderly
pub mod Updates
pub mod Runs
mod Tests
