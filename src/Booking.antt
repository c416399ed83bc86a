-- ===== src/Booking.antt =====
-- Bookings (src/v1/booking).
pub mod Transitions
pub mod Request
pub mod Service
pub mod Checks
pub mod Overlap
pub mod Calendar
pub mod Statuses
pub mod Lifecycle
pub mod Creation
pub mod Totals
pub mod Race
pub mod Occupancy
mod Tests
