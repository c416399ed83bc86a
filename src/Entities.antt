-- ===== src/Entities.antt =====
-- The rows of the database, the request's surroundings and the signed-in user.
mod Stay
mod Account
pub use Stay.{
  BookingStatus, Booking, BookingRoom, RoomStatus, Room, RoomType, RateOption, PaymentStatus,
  Payment, Currency, StayDb, IntentId, stripe_intent, cash_intent, same_intent, same_booking_status,
  same_room_status, same_payment_status,
}
pub use Account.{
  SubjectType, RegistrationStage, LoginProvider, OtpStatus, OtpPurpose, User, Admin, OtpRecord,
  RefreshToken, LogAction, LogEntry, AuthenticatedUser, Surroundings, same_otp_status,
  same_otp_purpose, same_stage, is_admin,
}
