-- ===== src/Booking/Request.antt =====
-- A booking request, and the checks of its rooms
-- (src/v1/booking/dto/create-booking.dto.ts; src/v1/booking/services/booking.service.ts:
-- validateAndPrepareRooms, assertNoDoubleBooking, calcNights).
use hotel_booking_management.Base.{
  ℕ, ◌+◌, ◌-◌, ◌*◌, ◌/◌, Bool, true, false, not, ◌&&◌, List, [], ◌∷◌, any, map, ltb, leb, ◌==◌,
  if◌then◌else◌,
}
use hotel_booking_management.Base.Table.{Orm}
use hotel_booking_management.Base.Exec.{
  Exec, bad_request, conflict, not_found, internal, pure, gets, or_throw, throw_if, ◌>>=◌, ◌>>◌,
}
use hotel_booking_management.Entities.{
  BookingStatus, Booking, BookingRoom, Room, RoomType, RateOption, StayDb, Surroundings,
}

-- A text that `IsDateString` lets through: the milliseconds that `new Date` reads in it, and the day
-- that PostgreSQL reads in it, both as parameters. It may name a time of the day, so the instant need
-- not be a midnight. Texts that `new Date` cannot read are left out.
pub record DateString : Type 0 where
  pub instant : ℕ
  pub day : ℕ

-- `BookingRoomItemDto`
pub record Item : Type 0 where
  pub room_id : ℕ
  pub rate_option_id : ℕ
  pub check_in_date : DateString
  pub check_out_date : DateString
  pub guest_count : ℕ

-- An item that has passed the checks, with its rate option.
pub record PreparedItem : Type 0 where
  pub item : Item
  pub rate_option : RateOption

abbrev pub ms_per_day : ℕ
ms_per_day = 1000 * 60 * 60 * 24

-- `NOT IN (CANCELLED, CHECKED_OUT)`
abbrev pub not_terminal : BookingStatus → Bool
not_terminal BookingStatus.cancelled = false
not_terminal BookingStatus.checked_out = false
not_terminal _ = true

-- the joined booking of a row is neither cancelled nor checked out
unfoldable pub is_live : List Booking → BookingRoom → Bool
is_live bookings br = any (λ b. b.id == br.booking_id && not_terminal b.status) bookings

-- The query for a booked room: `br.checkInDate < :checkOut AND br.checkOutDate > :checkIn`.
unfoldable pub is_conflict : List Booking → Item → BookingRoom → Bool
unfolding is_live
is_conflict bookings item br =
    br.room_id == item.room_id
    && (is_live bookings br
        && (ltb br.check_in_date item.check_out_date.day
            && ltb item.check_in_date.day br.check_out_date))

unfoldable pub is_booked : Item → StayDb → Bool
unfolding is_conflict
is_booked item db = any (is_conflict db.bookings item) db.booking_rooms

-- `requestedRoomIds.filter((id, idx) => requestedRoomIds.indexOf(id) !== idx)`
unfoldable pub repeated : List ℕ → List ℕ → List ℕ
repeated seen [] = []
repeated seen (id ∷ ids) =
    let rest = repeated (id ∷ seen) ids in if any (λ j. j == id) seen then id ∷ rest else rest

abbrev pub is_empty : List ℕ → Bool
is_empty [] = true
is_empty (_ ∷ _) = false

module _ (orm : Orm) (env : Surroundings) where
  -- The checks that follow when the room is stored and free.
  unfoldable pub prepare_in_room : Item → Room → Exec StayDb PreparedItem
  prepare_in_room item room = do
    rate ← gets (λ db.
        orm.find_one RateOption
          (λ r. r.id == item.rate_option_id && r.room_type_id == room.room_type_id) db.rate_options)
    rate_option ← or_throw rate (not_found "Rate option not found for room")
    kind ← gets (λ db. orm.find_one RoomType (λ t. t.id == room.room_type_id) db.room_types)
    room_type ← or_throw kind (internal "room.roomType is null")
    throw_if (ltb room_type.max_occupancy item.guest_count)
        (bad_request "Guest count exceeds max occupancy")
    pure (record { item = item; rate_option = rate_option })

  -- The checks of one room of the request, in the order of the code.
  unfoldable pub prepare_item : Item → Exec StayDb PreparedItem
  unfolding is_booked prepare_in_room
  prepare_item item = do
    throw_if (ltb item.check_in_date.instant env.midnight)
        (bad_request "Check-in date cannot be in the past")
    throw_if (leb item.check_out_date.instant item.check_in_date.instant)
        (bad_request "Check-out date must be after check-in date")
    found ← gets (λ db. orm.find_one Room (λ r. r.id == item.room_id) db.rooms)
    room ← or_throw found (not_found "Room not found")
    booked ← gets (is_booked item)
    throw_if booked (conflict "Room is already booked for the requested dates")
    prepare_in_room item room

  -- The code checks the rooms concurrently; the checks only read. Where several fail, the code throws
  -- the exception of the one that fails first, here that is the first in the request.
  unfoldable pub prepare_items : List Item → Exec StayDb (List PreparedItem)
  prepare_items [] = pure []
  prepare_items (item ∷ items) = do p ← prepare_item item; ps ← prepare_items items; pure (p ∷ ps)

  -- Each room is asked for once, and passes its checks.
  unfoldable pub validate_and_prepare_rooms : List Item → Exec StayDb (List PreparedItem)
  unfolding repeated
  validate_and_prepare_rooms items = do
    throw_if (not (is_empty (repeated [] (map (λ (i : Item). i.room_id) items))))
        (bad_request "Duplicate room(s) in request")
    prepare_items items

unfoldable pub assert_no_double_booking : List Item → Exec StayDb (Unit {0})
unfolding is_booked
assert_no_double_booking [] = pure tt
assert_no_double_booking (item ∷ items) = do
  booked ← gets (is_booked item)
  throw_if booked (conflict "Room is already booked")
  assert_no_double_booking items

-- The days between the instants, rounded to the nearest whole number. The caller has checked that the
-- check-out is later.
unfoldable pub calc_nights : DateString → DateString → ℕ
calc_nights check_in check_out =
    (check_out.instant - check_in.instant + ms_per_day / 2) / ms_per_day
