-- ===== src/Booking/Race.antt =====
-- Two runs of `create` (src/v1/booking/services/booking.service.ts), step by step.
use hotel_booking_management.Base.Table.{any_of_In}
use hotel_booking_management.Booking.Calendar.{Calendar}
use hotel_booking_management.Booking.Overlap.{NoOverlap, clash}
use hotel_booking_management.Booking.Request.{PreparedItem, not_terminal, is_live}
use hotel_booking_management.Booking.Service.{
  new_booking, insert_booking, booking_room_data, booking_room,
}
use hotel_booking_management.Base.{
  List, String, ◌==◌, ◌++◌, ◌&&◌, ◌∷◌, [], ◌≡◌, In, true, arith, ◌<◌, false, inl, In-append_right,
  All-In, inr, In-append_left, refl,
}
use hotel_booking_management.Entities.{
  Surroundings, Booking, BookingRoom, AuthenticatedUser, StayDb,
}

last_clash :
    (bookings : List Booking) (x y : BookingRoom) (zs : List BookingRoom)
    → NoOverlap bookings (zs ++ y ∷ [])
    → In x zs
    → clash bookings x y ≡ false
last_clash bookings x y [] n m = elim m [ ]
last_clash bookings x y (z ∷ zs) n (inl e) = rw e (
    All-In (λ w. clash bookings z w ≡ false) (zs ++ y ∷ []) n.0
      (In-append_right y zs (y ∷ []) (inl refl)))
last_clash bookings x y (z ∷ zs) n (inr m) = last_clash bookings x y zs n.1 m

new_is_live :
    (env : Surroundings) (reference : String) (ps : List PreparedItem) (user : AuthenticatedUser)
    → let b = new_booking env reference ps user in
      (b.id == env.fresh_id 0 && not_terminal b.status) ≡ true
unfolding new_booking
new_is_live env reference ps user = ground arith

module _ (env env' : Surroundings) (reference reference' : String)
    (user user' : AuthenticatedUser) where
  -- Two requests for one room and a common night that have both passed their checks are both
  -- written, and the calendar then holds two live stays in that room.
  pub race_double_books :
      (p q : PreparedItem) (db : StayDb)
      → q.item.room_id ≡ p.item.room_id
      → p.item.check_in_date.day < q.item.check_out_date.day
      → q.item.check_in_date.day < p.item.check_out_date.day
      → ¬ Calendar
          (insert_booking env' reference'
            (q ∷ [])
            user'
            (insert_booking env reference (p ∷ []) user db).1).1
  unfolding insert_booking booking_room_data booking_room is_live
  race_double_books p q db same before after c =
      let b = new_booking env reference (p ∷ []) user in
      let b' = new_booking env' reference' (q ∷ []) user' in
      let x = booking_room env b.id 1 p in
      let y = booking_room env' b'.id 1 q in
      let bs = (db.bookings ++ b ∷ []) ++ b' ∷ [] in
      let no_clash =
        last_clash bs x y (db.booking_rooms ++ x ∷ []) c
          (In-append_right x db.booking_rooms (x ∷ []) (inl refl)) in
      let live_x =
        any_of_In (λ w. w.id == x.booking_id && not_terminal w.status) b bs
          (In-append_left b (db.bookings ++ b ∷ []) (b' ∷ [])
            (In-append_right b db.bookings (b ∷ []) (inl refl)))
          (new_is_live env reference (p ∷ []) user) in
      let live_y =
        any_of_In (λ w. w.id == y.booking_id && not_terminal w.status) b' bs
          (In-append_right b' (db.bookings ++ b ∷ []) (b' ∷ []) (inl refl))
          (new_is_live env' reference' (q ∷ []) user') in
      ground arith
