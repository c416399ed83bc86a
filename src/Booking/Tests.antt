-- ===== src/Booking/Tests.antt =====
-- The booking service at the sample database.
use hotel_booking_management.Booking.Totals.{Priced, create-Priced, short_stay_is_free}
use hotel_booking_management.Booking.Occupancy.{cancel_frees_occupied_room}
use hotel_booking_management.Booking.Race.{race_double_books}
use hotel_booking_management.Base.Exec.{ok, err, conflict, forbidden}
use hotel_booking_management.Booking.Lifecycle.{patch_status-keeps}
use hotel_booking_management.Entities.{Booking, BookingStatus, RoomStatus, Currency}
use hotel_booking_management.Samples.{
  stays, checked_in_booking, env, item, prepared, customer, manager, stranger, room_at, booking_at,
  stay_at, day_of, rate,
}
use hotel_booking_management.Base.Table.{UniqueIds, scan_order}
use hotel_booking_management.Base.{
  In, arith, ◌∷◌, true, ◌≡◌, [], length, inl, ◌↔◌, refl, ◌*◌, ℕ, ◌+◌,
}
use hotel_booking_management.Booking.Request.{
  is_live, prepare_items, prepare_item, Item, PreparedItem, ms_per_day,
}
use hotel_booking_management.Booking.Statuses.{
  Patched, patch_status-Patched, Change, assert_valid_transition_iff,
}
use hotel_booking_management.Booking.Transitions.{assert_valid_transition}
use hotel_booking_management.Booking.Calendar.{Calendar}
use hotel_booking_management.Booking.Creation.{booked}
use hotel_booking_management.Booking.Service.{
  new_booking, create, patch_status, insert_booking, booking_room_data,
}

create_sample :
    let (r, db) = create scan_order env "BK-BBBBBBBB" (item ∷ []) customer stays in
    (r ≡ ok (new_booking env "BK-BBBBBBBB" (prepared ∷ []) customer))
    × (length db.booking_rooms ≡ 4)
unfolding create new_booking prepare_items prepare_item
create_sample = (refl, refl)

create_conflict :
    create scan_order env "BK-BBBBBBBB"
      (record item { check_out_date = day_of 6 } ∷ [])
      customer
      stays
    ≡ (err (conflict "Room is already booked for the requested dates"), stays)
unfolding create prepare_items prepare_item
create_conflict = refl

patch_by_customer :
    (patch_status scan_order 11 BookingStatus.checked_in customer stays).0
    ≡ err (forbidden "Cannot transition booking")
unfolding patch_status
patch_by_customer = refl

stays-Calendar : Calendar stays
unfolding is_live
stays-Calendar = ((refl, (refl, tt)), ((refl, tt), (tt, tt)))

stays_unique : UniqueIds (λ (b : Booking). b.id) stays.bookings
stays_unique = omega arith

patch_status-Patched_example :
    Patched 11 BookingStatus.checked_in manager stays
      (patch_status scan_order 11 BookingStatus.checked_in manager stays)
patch_status-Patched_example =
    patch_status-Patched scan_order 11 BookingStatus.checked_in manager stays

patch_status-keeps_example :
    In checked_in_booking
      (patch_status scan_order 10 BookingStatus.checked_out stranger stays).1.bookings
patch_status-keeps_example =
    patch_status-keeps scan_order 10 BookingStatus.checked_out stranger stays checked_in_booking
      stays_unique (inl refl) (inl refl)

abbrev new_one : Booking
new_one = record {
  id = 100;
  booking_reference = "BK-BBBBBBBB";
  user_id = 7;
  status = BookingStatus.pending;
  total_price = 20000;
  currency = Currency.usd;
  total_guest = 2;
  booked_at = 1000;
}

create_answer :
    create scan_order env "BK-BBBBBBBB" (item ∷ []) customer stays
    ≡ (ok new_one, booked env "BK-BBBBBBBB" (prepared ∷ []) customer stays)
unfolding create new_booking prepare_items prepare_item booking_room_data
create_answer = refl

create-Priced_example :
    Priced scan_order env "BK-BBBBBBBB"
      (item ∷ [])
      customer
      stays
      new_one
      (booked env "BK-BBBBBBBB" (prepared ∷ []) customer stays)
create-Priced_example =
    create-Priced scan_order env "BK-BBBBBBBB" (item ∷ []) customer stays new_one
      (booked env "BK-BBBBBBBB" (prepared ∷ []) customer stays) ((refl, refl), tt)
      (refl, (refl, (refl, tt))) (omega arith) create_answer

-- From 23:00 to 01:00 of the next day.
abbrev short_item : Item
short_item = record item {
  check_in_date = record { instant = 3 * ms_per_day + 82800000; day = 3 };
  check_out_date = record { instant = 4 * ms_per_day + 3600000; day = 4 };
}

abbrev short_prepared : PreparedItem
short_prepared = record { item = short_item; rate_option = rate }

create_short : create scan_order env "BK-BBBBBBBB" (short_item ∷ []) customer stays ≡ (
  ok (record new_one { total_price = 0 }),
  booked env "BK-BBBBBBBB" (short_prepared ∷ []) customer stays,
)
unfolding create new_booking prepare_items prepare_item booking_room_data
create_short = refl

short_stay_is_free_example :
    In
      (record new_one { total_price = 0 })
      (booked env "BK-BBBBBBBB" (short_prepared ∷ []) customer stays).bookings
    × ◌≡◌ {A = ℕ} 0 0
short_stay_is_free_example =
    short_stay_is_free scan_order env "BK-BBBBBBBB" (short_item ∷ []) customer stays
      (record new_one { total_price = 0 })
      (booked env "BK-BBBBBBBB" (short_prepared ∷ []) customer stays) (omega arith, tt)
      (omega arith) create_short

assert_valid_transition_iff_example :
    (assert_valid_transition BookingStatus.pending BookingStatus.confirmed true stays
      ≡ (ok tt, stays))
    ↔ Change true BookingStatus.pending BookingStatus.confirmed
assert_valid_transition_iff_example =
    assert_valid_transition_iff BookingStatus.pending BookingStatus.confirmed true stays

cancel_frees_occupied_room_example :
    let db = (patch_status scan_order 11 BookingStatus.cancelled customer stays).1 in
    In (room_at 20 RoomStatus.available) db.rooms × In checked_in_booking db.bookings
unfolding patch_status
cancel_frees_occupied_room_example =
    cancel_frees_occupied_room scan_order 11 customer stays (room_at 20 RoomStatus.occupied)
      checked_in_booking (booking_at 11 BookingStatus.cancelled) (stay_at 70 10 20 1 3) stays_unique
      (inl refl) (inl refl) refl (inl refl, refl, refl) refl refl

race_double_books_example :
    ¬ Calendar
      (insert_booking env "BK-CCCCCCCC"
        (prepared ∷ [])
        stranger
        (insert_booking env "BK-BBBBBBBB" (prepared ∷ []) customer stays).1).1
race_double_books_example =
    race_double_books env env "BK-BBBBBBBB" "BK-CCCCCCCC" customer stranger prepared prepared stays
      refl (omega arith) (omega arith)
