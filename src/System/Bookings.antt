-- ===== src/System/Bookings.antt =====
-- The steps of bookings keep the tables sound.
use hotel_booking_management.Booking.Creation.{booked}
use hotel_booking_management.Booking.Checks.{IsBookable, Distinct, room_ids}
use hotel_booking_management.Booking.Overlap.{NoOverlap-mono}
use hotel_booking_management.Payment.Paid.{payments-sync_rooms, HasPaid, settled_before}
use hotel_booking_management.Base.Keys.{UniqueIds-save, UniqueIds-append}
use hotel_booking_management.Base.Table.{save, All-save, any-save, any_of_In}
use hotel_booking_management.Booking.Calendar.{Calendar, IsUnused, insert_booking-NoOverlap}
use hotel_booking_management.Booking.Statuses.{
  Change, changed, bookings-sync_rooms, booking_rooms-sync_rooms, Change-live,
}
use hotel_booking_management.Base.{
  Bool, String, In, List, map, ◌≡◌, All, All-intro, true, All-In, ◌==◌, ◌&&◌, ◌≢◌, inl, All-append,
  arith, ◌∷◌, inr, [],
}
use hotel_booking_management.Booking.Service.{insert_booking, new_booking}
use hotel_booking_management.Booking.Request.{is_live, Item, PreparedItem, not_terminal}
use hotel_booking_management.System.Rules.{IsSound, booking_id}
use hotel_booking_management.Entities.{
  StayDb, Booking, Surroundings, BookingStatus, AuthenticatedUser,
}

module _ (db : StayDb) (sound : IsSound db) where
  pub reserve-IsSound :
      (env : Surroundings) (reference : String) (items : List Item) (ps : List PreparedItem)
      (user : AuthenticatedUser)
      → map (λ (p : PreparedItem). p.item) ps ≡ items
      → All (IsBookable env db) items
      → Distinct (room_ids items)
      → IsUnused (env.fresh_id 0) db
      → All (λ b. b.id ≢ env.fresh_id 0) db.bookings
      → IsSound (booked env reference ps user db)
  unfolding insert_booking new_booking
  reserve-IsSound env reference items ps user m bookable d unused new = record {
    booking_ids =
        UniqueIds-append booking_id (new_booking env reference ps user) db.bookings new
          sound.booking_ids;
    payment_ids = sound.payment_ids;
    calendar =
        insert_booking-NoOverlap env reference items ps user db unused m bookable d sound.calendar;
    paid =
        All-append (HasPaid db.payments) db.bookings (new_booking env reference ps user ∷ [])
          sound.paid ((λ h. absurd (cc h)), tt);
    pending = sound.pending;
  }

  moved-Calendar :
      (admin : Bool) (b : Booking) (t : BookingStatus)
      → In b db.bookings
      → Change admin b.status t
      → Calendar (changed b t db)
  unfolding is_live
  moved-Calendar admin b t m c =
      let after = save booking_id (record b { status = t }) db.bookings in
      rw (bookings-sync_rooms, booking_rooms-sync_rooms)
        (NoOverlap-mono db.bookings after db.booking_rooms
          (All-intro (λ br. is_live after br ≡ true → is_live db.bookings br ≡ true)
            db.booking_rooms
            (λ br h.
              (let live : Booking → Bool = λ x. x.id == br.booking_id && not_terminal x.status in
                elim (any-save live booking_id (record b { status = t }) db.bookings h) [
                  | inl now ↦
                      any_of_In live b db.bookings m (let was = Change-live c in ground arith)
                  | inr before ↦ before
                ])))
          sound.calendar)

  pub move-IsSound :
      (admin : Bool) (b : Booking) (t : BookingStatus)
      → In b db.bookings
      → Change admin b.status t
      → IsSound (changed b t db)
  move-IsSound admin b t m c = record {
    booking_ids =
        rw bookings-sync_rooms
          (UniqueIds-save booking_id (record b { status = t }) db.bookings sound.booking_ids);
    payment_ids = rw payments-sync_rooms sound.payment_ids;
    calendar = moved-Calendar admin b t m c;
    paid =
        rw (bookings-sync_rooms, payments-sync_rooms)
          (All-save (HasPaid db.payments) booking_id (record b { status = t }) db.bookings
            (λ s. All-In (HasPaid db.payments) db.bookings sound.paid m (settled_before c s))
            sound.paid);
    pending = λ i. rw payments-sync_rooms (sound.pending i);
  }
