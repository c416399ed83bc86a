-- ===== src/Samples.antt =====
-- The small database at which the examples of the theorems stand: two rooms of one type, a booking
-- that is checked in, one that is confirmed and paid, and one that is pending.
use hotel_booking_management.Booking.Request.{PreparedItem, Item, DateString, ms_per_day}
use hotel_booking_management.Entities.{
  StayDb, Payment, RateOption, Booking, AuthenticatedUser, Surroundings, SubjectType, BookingStatus,
  BookingRoom, RoomStatus, PaymentStatus, Currency, Room, stripe_intent,
}
use hotel_booking_management.Base.{ℕ, ◌+◌, ◌*◌, String, ◌∷◌, true, []}

abbrev pub env : Surroundings
env = record { now = 1000; midnight = 0; fresh_id = λ k. 100 + k; logs_written = true }

abbrev pub customer : AuthenticatedUser
customer = record { id = 7; subject_type = SubjectType.user_subject }

abbrev pub stranger : AuthenticatedUser
stranger = record { id = 8; subject_type = SubjectType.user_subject }

abbrev pub manager : AuthenticatedUser
manager = record { id = 1; subject_type = SubjectType.admin_subject }

abbrev pub booking_at : ℕ → BookingStatus → Booking
booking_at i s = record {
  id = i;
  booking_reference = "BK-AAAAAAAA";
  user_id = 7;
  status = s;
  total_price = 20000;
  currency = Currency.usd;
  total_guest = 2;
  booked_at = 0;
}

abbrev pub stay_at : ℕ → ℕ → ℕ → ℕ → ℕ → BookingRoom
stay_at i booking room from to = record {
  id = i;
  booking_id = booking;
  room_id = room;
  rate_option_id = 50;
  check_in_date = from;
  check_out_date = to;
  room_price_per_night = 10000;
  room_total_price = 20000;
  guest_count = 2;
}

abbrev pub room_at : ℕ → RoomStatus → Room
room_at i s = record {
  id = i;
  hotel_id = 30;
  room_type_id = 40;
  room_number = "101";
  floor_number = 1;
  status = s;
}

abbrev pub checked_in_booking : Booking
checked_in_booking = booking_at 10 BookingStatus.checked_in

abbrev pub confirmed_booking : Booking
confirmed_booking = booking_at 11 BookingStatus.confirmed

abbrev pub pending_booking : Booking
pending_booking = booking_at 12 BookingStatus.pending

abbrev pub payment_at : ℕ → ℕ → String → PaymentStatus → Payment
payment_at i booking intent s = record {
  id = i;
  booking_id = booking;
  user_id = 7;
  payment_intent_id = stripe_intent intent;
  amount = 20000;
  currency = Currency.usd;
  status = s;
}

abbrev pub paid_checked_in : Payment
paid_checked_in = payment_at 60 10 "pi_a" PaymentStatus.completed

abbrev pub paid_confirmed : Payment
paid_confirmed = payment_at 61 11 "pi_b" PaymentStatus.completed

abbrev pub rate : RateOption
rate = record { id = 50; room_type_id = 40; price_per_night = 10000; currency = Currency.usd }

-- The guest of booking 10 is in room 20 for days 1 to 3; booking 11 has it for days 5 to 7, and
-- booking 12 has room 21 for days 1 to 3.
abbrev pub stays : StayDb
stays = record {
  bookings = checked_in_booking ∷ confirmed_booking ∷ pending_booking ∷ [];
  booking_rooms = stay_at 70 10 20 1 3 ∷ stay_at 71 11 20 5 7 ∷ stay_at 72 12 21 1 3 ∷ [];
  rooms = room_at 20 RoomStatus.occupied ∷ room_at 21 RoomStatus.available ∷ [];
  room_types = record { id = 40; hotel_id = 30; max_occupancy = 2 } ∷ [];
  rate_options = rate ∷ [];
  payments = paid_checked_in ∷ paid_confirmed ∷ [];
}

-- A date without a time of the day, `YYYY-MM-DD`.
abbrev pub day_of : ℕ → DateString
day_of n = record { instant = n * ms_per_day; day = n }

abbrev pub item : Item
item = record {
  room_id = 20;
  rate_option_id = 50;
  check_in_date = day_of 3;
  check_out_date = day_of 5;
  guest_count = 2;
}

abbrev pub prepared : PreparedItem
prepared = record { item = item; rate_option = rate }
