-- ===== src/Payment.antt =====
-- Payments (src/v1/payment).
pub mod Keys
pub mod Service
pub mod Paid
pub mod Handlers
pub mod Intents
pub mod Samples
mod Tests
