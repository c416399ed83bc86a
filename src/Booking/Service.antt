-- ===== src/Booking/Service.antt =====
-- The operations on bookings (src/v1/booking/services/booking.service.ts).
use hotel_booking_management.Base.{
  ℕ, ◌+◌, ◌*◌, String, Bool, ◌&&◌, ◌||◌, List, [], ◌∷◌, ◌++◌, any, map, select, ◌==◌,
}
use hotel_booking_management.Base.Table.{Orm, save, update}
use hotel_booking_management.Base.Exec.{
  Exec, not_found, pure, gets, modify, or_throw, transaction, ◌>>=◌, ◌>>◌,
}
use hotel_booking_management.Entities.{
  BookingStatus, Booking, BookingRoom, RoomStatus, Room, Currency, StayDb, AuthenticatedUser,
  Surroundings, is_admin,
}
use hotel_booking_management.Booking.Transitions.{assert_valid_transition}
use hotel_booking_management.Booking.Request.{
  Item, PreparedItem, calc_nights, validate_and_prepare_rooms, assert_no_double_booking,
}

-- `isAdmin ? { id } : { id, userId: currentUser.id }`
abbrev pub is_visible : ℕ → AuthenticatedUser → Booking → Bool
is_visible id user b = b.id == id && (is_admin user || b.user_id == user.id)

unfoldable pub find_one_or_fail : Orm → ℕ → AuthenticatedUser → Exec StayDb Booking
find_one_or_fail orm id user = do
  found ← gets (λ db. orm.find_one Booking (is_visible id user) db.bookings)
  or_throw found (not_found "Booking not found")

-- What one room of the request costs.
unfoldable pub room_total : PreparedItem → ℕ
unfolding calc_nights
room_total p =
    p.rate_option.price_per_night * calc_nights p.item.check_in_date p.item.check_out_date

-- The running sums of the `map` in `create`.
unfoldable pub total_price : ℕ → List PreparedItem → ℕ
unfolding room_total
total_price total [] = total
total_price total (p ∷ ps) = total_price (total + room_total p) ps

unfoldable pub total_guest : ℕ → List PreparedItem → ℕ
total_guest total [] = total
total_guest total (p ∷ ps) = total_guest (total + p.item.guest_count) ps

-- The `date` columns keep the days of the request's dates.
unfoldable pub booking_room : Surroundings → ℕ → ℕ → PreparedItem → BookingRoom
unfolding room_total
booking_room env booking_id k p = record {
  id = env.fresh_id k;
  booking_id = booking_id;
  room_id = p.item.room_id;
  rate_option_id = p.item.rate_option_id;
  check_in_date = p.item.check_in_date.day;
  check_out_date = p.item.check_out_date.day;
  room_price_per_night = p.rate_option.price_per_night;
  room_total_price = room_total p;
  guest_count = p.item.guest_count;
}

-- The rows of the rooms; the database numbers them from `k` on.
unfoldable pub booking_room_data : Surroundings → ℕ → ℕ → List PreparedItem → List BookingRoom
unfolding booking_room
booking_room_data env booking_id k [] = []
booking_room_data env booking_id k (p ∷ ps) =
    booking_room env booking_id k p ∷ booking_room_data env booking_id (k + 1) ps

-- The new row. The code sets no currency, so the column's default stands.
unfoldable pub new_booking : Surroundings → String → List PreparedItem → AuthenticatedUser → Booking
unfolding total_price total_guest
new_booking env reference ps user = record {
  id = env.fresh_id 0;
  booking_reference = reference;
  user_id = user.id;
  status = BookingStatus.pending;
  total_price = total_price 0 ps;
  currency = Currency.usd;
  total_guest = total_guest 0 ps;
  booked_at = env.now;
}

-- The transaction of `create`. Both saves insert, since the new rows have no identifier yet.
unfoldable pub insert_booking :
    Surroundings → String → List PreparedItem → AuthenticatedUser → Exec StayDb Booking
unfolding new_booking booking_room_data
insert_booking env reference ps user = transaction do
  let booking = new_booking env reference ps user
  modify (λ db. record db { bookings = db.bookings ++ booking ∷ [] })
  modify (λ db. record db {
    booking_rooms = db.booking_rooms ++ booking_room_data env booking.id 1 ps;
  })
  pure booking

-- `reference` is what `generateReference` draws.
unfoldable pub create :
    Orm → Surroundings → String → List Item → AuthenticatedUser → Exec StayDb Booking
unfolding validate_and_prepare_rooms assert_no_double_booking insert_booking find_one_or_fail
create orm env reference items user = do
  ps ← validate_and_prepare_rooms orm env items
  assert_no_double_booking items
  booking ← insert_booking env reference ps user
  find_one_or_fail orm booking.id user

unfoldable pub find_one : Orm → ℕ → AuthenticatedUser → Exec StayDb Booking
unfolding find_one_or_fail
find_one orm id user = find_one_or_fail orm id user

-- `UPDATE rooms SET status = … WHERE id IN (…)`, for the rooms of a booking. A booking without rooms,
-- for which `IN ()` is an error of the database, is not written by the API: a request has rooms.
unfoldable pub set_room_status : ℕ → RoomStatus → StayDb → StayDb
set_room_status booking_id status db =
    let room_ids =
      map (λ (br : BookingRoom). br.room_id)
        (select (λ (br : BookingRoom). br.booking_id == booking_id) db.booking_rooms) in
    record db {
      rooms =
          update (λ (r : Room). any (λ i. i == r.id) room_ids) (λ r. record r { status = status })
            db.rooms;
    }

-- A guest who checks in occupies the rooms; a stay that ends, or is cancelled, frees them.
unfoldable pub sync_rooms : ℕ → BookingStatus → StayDb → StayDb
unfolding set_room_status
sync_rooms id BookingStatus.checked_in db = set_room_status id RoomStatus.occupied db
sync_rooms id BookingStatus.checked_out db = set_room_status id RoomStatus.available db
sync_rooms id BookingStatus.cancelled db = set_room_status id RoomStatus.available db
sync_rooms id _ db = db

unfoldable pub patch_status : Orm → ℕ → BookingStatus → AuthenticatedUser → Exec StayDb Booking
unfolding assert_valid_transition sync_rooms find_one_or_fail
patch_status orm id status user = do
  found ← gets (λ db. orm.find_one Booking (is_visible id user) db.bookings)
  booking ← or_throw found (not_found "Booking not found")
  assert_valid_transition booking.status status (is_admin user)
  let saved = record booking { status = status }
  modify (λ db. record db { bookings = save (λ (b : Booking). b.id) saved db.bookings })
  modify (sync_rooms booking.id status)
  find_one_or_fail orm saved.id user
