-- ===== src/Booking/Transitions.antt =====
-- The status changes that a caller may ask for
-- (src/v1/booking/services/booking.service.ts: the transition tables, assertValidTransition).
use hotel_booking_management.Base.{Bool, List, [], ◌∷◌, any, if◌then◌else◌}
use hotel_booking_management.Base.Exec.{Exec, forbidden, bad_request, pure, throw, throw_if, ◌>>◌}
use hotel_booking_management.Entities.{BookingStatus, same_booking_status}

unfoldable pub customer_allowed_transitions : BookingStatus → List BookingStatus
customer_allowed_transitions BookingStatus.pending = BookingStatus.cancelled ∷ []
customer_allowed_transitions BookingStatus.confirmed = BookingStatus.cancelled ∷ []
customer_allowed_transitions _ = []

unfoldable pub admin_only_transitions : BookingStatus → List BookingStatus
admin_only_transitions BookingStatus.pending = BookingStatus.cancelled ∷ []
admin_only_transitions BookingStatus.confirmed =
    BookingStatus.checked_in ∷ BookingStatus.cancelled ∷ []
admin_only_transitions BookingStatus.checked_in = BookingStatus.checked_out ∷ []
admin_only_transitions _ = []

unfoldable pub is_allowed : BookingStatus → BookingStatus → Bool → Bool
unfolding customer_allowed_transitions admin_only_transitions
is_allowed current next admin =
    any (same_booking_status next)
      (if admin then admin_only_transitions current else customer_allowed_transitions current)

unfoldable pub assert_valid_transition :
    {S : Type 0} → BookingStatus → BookingStatus → Bool → Exec S (Unit {0})
unfolding is_allowed
assert_valid_transition current next admin = do
  throw_if (same_booking_status current next) (bad_request "Booking is already in this status")
  if is_allowed current next admin
      then pure tt
      else if same_booking_status next BookingStatus.confirmed
      then throw (forbidden "Bookings are confirmed automatically upon payment")
      else throw (forbidden "Cannot transition booking")
