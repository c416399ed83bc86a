-- ===== src/Entities/Stay.antt =====
-- The rows of bookings, rooms and payments
-- (src/v1/booking/entities, src/v1/room/entities, src/v1/rate-option/entities,
-- src/v1/payment/entities). A uuid is only compared, so it is a number. A date column is the number
-- of days since 1970-01-01, a decimal column with two digits is a number of hundredths.
use hotel_booking_management.Base.{ℕ, String, Bool, true, false, List, str_eq, ◌==◌, ◌&&◌}

pub data BookingStatus : Type 0 where
  pending confirmed checked_in checked_out cancelled : BookingStatus

abbrev pub same_booking_status : BookingStatus → BookingStatus → Bool
same_booking_status BookingStatus.pending BookingStatus.pending = true
same_booking_status BookingStatus.confirmed BookingStatus.confirmed = true
same_booking_status BookingStatus.checked_in BookingStatus.checked_in = true
same_booking_status BookingStatus.checked_out BookingStatus.checked_out = true
same_booking_status BookingStatus.cancelled BookingStatus.cancelled = true
same_booking_status _ _ = false

pub data Currency : Type 0 where
  usd eur gbp sgd thb : Currency

pub record Booking : Type 0 where
  pub id : ℕ
  pub booking_reference : String
  pub user_id : ℕ
  pub status : BookingStatus
  pub total_price : ℕ
  pub currency : Currency
  pub total_guest : ℕ
  pub booked_at : ℕ

pub record BookingRoom : Type 0 where
  pub id : ℕ
  pub booking_id : ℕ
  pub room_id : ℕ
  pub rate_option_id : ℕ
  pub check_in_date : ℕ
  pub check_out_date : ℕ
  pub room_price_per_night : ℕ
  pub room_total_price : ℕ
  pub guest_count : ℕ

pub data RoomStatus : Type 0 where
  available occupied maintenance out_of_service : RoomStatus

abbrev pub same_room_status : RoomStatus → RoomStatus → Bool
same_room_status RoomStatus.available RoomStatus.available = true
same_room_status RoomStatus.occupied RoomStatus.occupied = true
same_room_status RoomStatus.maintenance RoomStatus.maintenance = true
same_room_status RoomStatus.out_of_service RoomStatus.out_of_service = true
same_room_status _ _ = false

pub record Room : Type 0 where
  pub id : ℕ
  pub hotel_id : ℕ
  pub room_type_id : ℕ
  pub room_number : String
  pub floor_number : ℕ
  pub status : RoomStatus

pub record RoomType : Type 0 where
  pub id : ℕ
  pub hotel_id : ℕ
  pub max_occupancy : ℕ

pub record RateOption : Type 0 where
  pub id : ℕ
  pub room_type_id : ℕ
  pub price_per_night : ℕ
  pub currency : Currency

pub data PaymentStatus : Type 0 where
  pending completed failed refunded refund_pending refund_failed : PaymentStatus

abbrev pub same_payment_status : PaymentStatus → PaymentStatus → Bool
same_payment_status PaymentStatus.pending PaymentStatus.pending = true
same_payment_status PaymentStatus.completed PaymentStatus.completed = true
same_payment_status PaymentStatus.failed PaymentStatus.failed = true
same_payment_status PaymentStatus.refunded PaymentStatus.refunded = true
same_payment_status PaymentStatus.refund_pending PaymentStatus.refund_pending = true
same_payment_status PaymentStatus.refund_failed PaymentStatus.refund_failed = true
same_payment_status _ _ = false

-- `paymentIntentId`: the identifier that Stripe gave, or `cash_${booking.id}_${Date.now()}`.
pub data IntentId : Type 0 where
  stripe_intent : String → IntentId
  cash_intent : ℕ → ℕ → IntentId

abbrev pub same_intent : IntentId → IntentId → Bool
same_intent (stripe_intent a) (stripe_intent b) = str_eq a b
same_intent (cash_intent a t) (cash_intent b u) = a == b && t == u
same_intent _ _ = false

-- A row of `payments`; the one provider of the enum is left out.
pub record Payment : Type 0 where
  pub id : ℕ
  pub booking_id : ℕ
  pub user_id : ℕ
  pub payment_intent_id : IntentId
  pub amount : ℕ
  pub currency : Currency
  pub status : PaymentStatus

-- The tables that the booking and payment services share.
pub record StayDb : Type 0 where
  pub bookings : List Booking
  pub booking_rooms : List BookingRoom
  pub rooms : List Room
  pub room_types : List RoomType
  pub rate_options : List RateOption
  pub payments : List Payment
