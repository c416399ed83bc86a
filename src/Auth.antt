-- ===== src/Auth.antt =====
-- Accounts, one-time codes, two-factor authentication and refresh tokens (src/v1/auth, src/v1/otp).
pub mod State
pub mod Otp
pub mod TwoFactor
pub mod Token
pub mod PasswordReset
pub mod Reset
pub mod AdminAuth
pub mod Login
pub mod Kept
pub mod Sessions
pub mod Issued
pub mod Codes
pub mod Lockout
pub mod Images
pub mod UserAuth
pub mod Register
pub mod Profile
pub mod OneSession
pub mod Stages
pub mod Requests
pub mod Progress
pub mod Registration
pub mod Completion
pub mod Takeover
pub mod Samples
mod Tests
mod ResetTests
mod UserTests
