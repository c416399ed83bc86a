-- ===== src/Booking/Calendar.antt =====
-- `create` (src/v1/booking/services/booking.service.ts) and the calendar of live stays.
use hotel_booking_management.Base.Exec.{Result, ok, err, ◌>>◌, ◌>>=◌}
use hotel_booking_management.Booking.Checks.{
  Distinct, room_ids, IsBookable, Validated, assert_no_double_booking-bookable,
  validate_and_prepare_rooms-Validated,
}
use hotel_booking_management.Base.Table.{Orm}
use hotel_booking_management.Base.{
  ℕ, ◌≡◌, true, false, List, [], ◌∷◌, ◌++◌, map, All, any-append, ◌==◌, arith, ◌+◌, String, All-imp,
  any-false, All-swap,
}
use hotel_booking_management.Entities.{
  Booking, BookingRoom, StayDb, Surroundings, AuthenticatedUser,
}
use hotel_booking_management.Booking.Request.{
  Item, PreparedItem, is_live, is_conflict, is_booked, assert_no_double_booking,
  validate_and_prepare_rooms,
}
use hotel_booking_management.Booking.Service.{
  booking_room, booking_room_data, insert_booking, find_one_or_fail, new_booking, create,
}
use hotel_booking_management.Booking.Overlap.{clash, NoOverlap, NoOverlap-append, NoOverlap-mono}

cons_injective : {A : Type 0} (x y : A) (xs ys : List A) → (x ∷ xs) ≡ (y ∷ ys) → (x ≡ y) × (xs ≡ ys)
cons_injective x y xs ys e = (cc, cc)

-- No row of `booking_rooms` belongs to the booking of this identifier yet.
abbrev pub IsUnused : ℕ → StayDb → Type 0
IsUnused id db = All (λ br. (id == br.booking_id) ≡ false) db.booking_rooms

-- The new booking brings no old row to life.
live-append :
    (bookings : List Booking) (b : Booking) (br : BookingRoom)
    → (b.id == br.booking_id) ≡ false
    → is_live (bookings ++ b ∷ []) br ≡ true
    → is_live bookings br ≡ true
unfolding is_live
live-append bookings b br new = rw (any-append, new) (λ h. ground arith)

module _ (bookings : List Booking) (b : Booking) (env : Surroundings) where
  abbrev after : List Booking
  after = bookings ++ b ∷ []

  abbrev items_of : List PreparedItem → List Item
  items_of ps = map (λ (p : PreparedItem). p.item) ps

  -- A new row overlaps no old one.
  new_row_free :
      (item : Item) (brs : List BookingRoom) (p : PreparedItem) (k : ℕ)
      → p.item ≡ item
      → All (λ br. (b.id == br.booking_id) ≡ false) brs
      → All (λ br. is_conflict bookings item br ≡ false) brs
      → All (λ x. clash after x (booking_room env b.id k p) ≡ false) brs
  unfolding booking_room is_conflict
  new_row_free item [] p k e u h = tt
  new_row_free item (br ∷ brs) p k e u h =
      (ground (arith, live-append bookings b br u.0), new_row_free item brs p k e u.1 h.1)

  new_rows_free :
      (items : List Item) (brs : List BookingRoom) (ps : List PreparedItem) (k : ℕ)
      → items_of ps ≡ items
      → All (λ br. (b.id == br.booking_id) ≡ false) brs
      → All (λ item. All (λ br. is_conflict bookings item br ≡ false) brs) items
      → All (λ y. All (λ x. clash after x y ≡ false) brs) (booking_room_data env b.id k ps)
  unfolding booking_room_data
  new_rows_free items brs [] k e u h = tt
  new_rows_free [] brs (p ∷ ps) k e u h = cc
  new_rows_free (item ∷ items) brs (p ∷ ps) k e u h =
      let (head, rest) = cons_injective p.item item (items_of ps) items e in
      (new_row_free item brs p k head u h.0, new_rows_free items brs ps (k + 1) rest u h.1)

  -- The new rows are for different rooms.
  other_room :
      (p : PreparedItem) (k j : ℕ) (ps : List PreparedItem)
      → All (λ y. (p.item.room_id == y) ≡ false) (room_ids (items_of ps))
      → All
          (λ y. clash after (booking_room env b.id k p) y ≡ false)
          (booking_room_data env b.id j ps)
  unfolding booking_room_data booking_room
  other_room p k j [] h = tt
  other_room p k j (q ∷ ps) h = (ground arith, other_room p k (j + 1) ps h.1)

  new_rows-NoOverlap :
      (k : ℕ) (ps : List PreparedItem)
      → Distinct (room_ids (items_of ps))
      → NoOverlap after (booking_room_data env b.id k ps)
  unfolding booking_room_data
  new_rows-NoOverlap k [] h = tt
  new_rows-NoOverlap k (p ∷ ps) h =
      (other_room p k (k + 1) ps h.0, new_rows-NoOverlap (k + 1) ps h.1)

unbooked :
    (env : Surroundings) (db : StayDb) (items : List Item)
    → All (IsBookable env db) items
    → All (λ item. All (λ br. is_conflict db.bookings item br ≡ false) db.booking_rooms) items
unfolding is_booked
unbooked env db items =
    All-imp (IsBookable env db)
      (λ item. All (λ br. is_conflict db.bookings item br ≡ false) db.booking_rooms) items
      (λ item h. any-false (is_conflict db.bookings item) db.booking_rooms h.unbooked)

-- A request whose rooms passed the checks is written without an overlap.
pub insert_booking-NoOverlap :
    (env : Surroundings) (reference : String) (items : List Item) (ps : List PreparedItem)
    (user : AuthenticatedUser) (db : StayDb)
    → IsUnused (env.fresh_id 0) db
    → map (λ (p : PreparedItem). p.item) ps ≡ items
    → All (IsBookable env db) items
    → Distinct (room_ids items)
    → NoOverlap db.bookings db.booking_rooms
    → let (_, db') = insert_booking env reference ps user db in
      NoOverlap db'.bookings db'.booking_rooms
unfolding insert_booking
insert_booking-NoOverlap env reference items ps user db u e h d n =
    let b = new_booking env reference ps user in
    let bs = db.bookings ++ b ∷ [] in
    NoOverlap-append bs db.booking_rooms (booking_room_data env b.id 1 ps)
      (NoOverlap-mono db.bookings bs db.booking_rooms
        (All-imp (λ br. (b.id == br.booking_id) ≡ false)
          (λ br. is_live bs br ≡ true → is_live db.bookings br ≡ true) db.booking_rooms
          (λ br new. live-append db.bookings b br new) u)
        n)
      (new_rows-NoOverlap db.bookings b env 1 ps (rw e d))
      (All-swap (λ x y. clash bs x y ≡ false) db.booking_rooms (booking_room_data env b.id 1 ps)
        (new_rows_free db.bookings b env items db.booking_rooms ps 1 e u (unbooked env db items h)))

find_one_or_fail-state :
    (orm : Orm) (id : ℕ) (user : AuthenticatedUser) (db : StayDb)
    → (find_one_or_fail orm id user db).1 ≡ db
unfolding find_one_or_fail
find_one_or_fail-state orm id user db = ground arith

-- No two live stays share a room for a night.
abbrev pub Calendar : StayDb → Type 0
Calendar db = NoOverlap db.bookings db.booking_rooms

-- What `create` does once the rooms of the request have been checked.
unfoldable pub write_booking :
    Orm
    → Surroundings
    → String
    → List Item
    → AuthenticatedUser
    → Result (List PreparedItem) × StayDb
    → Result Booking × StayDb
write_booking orm env reference items user (ok ps, db) =
    (assert_no_double_booking items
        >> (insert_booking env reference ps user >>= λ booking.
            find_one_or_fail orm booking.id user))
      db
write_booking orm env reference items user (err e, db) = (err e, db)

write_booking-Calendar :
    (orm : Orm) (env : Surroundings) (reference : String) (items : List Item)
    (user : AuthenticatedUser) (db : StayDb) (r : Result (List PreparedItem) × StayDb)
    → IsUnused (env.fresh_id 0) db
    → Calendar db
    → Validated env db items r
    → Calendar (write_booking orm env reference items user r).1
unfolding write_booking insert_booking
write_booking-Calendar orm env reference items user db (err e, db') u c v = rw v c
write_booking-Calendar orm env reference items user db (ok ps, db') u c v =
    rw (v.0, assert_no_double_booking-bookable env items db v.2, find_one_or_fail-state)
      (insert_booking-NoOverlap env reference items ps user db u v.1 v.2 v.3 c)

-- If the new booking's identifier is unused and no two live stays overlap, none do after `create`,
-- whether it succeeds or not.
pub create-Calendar :
    (orm : Orm) (env : Surroundings) (reference : String) (items : List Item)
    (user : AuthenticatedUser) (db : StayDb)
    → IsUnused (env.fresh_id 0) db
    → Calendar db
    → Calendar (create orm env reference items user db).1
unfolding create write_booking
create-Calendar orm env reference items user db u c =
    let checked = validate_and_prepare_rooms orm env items db in
    write_booking-Calendar orm env reference items user db checked u c
      (validate_and_prepare_rooms-Validated orm env items db)
