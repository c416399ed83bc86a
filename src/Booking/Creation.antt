-- ===== src/Booking/Creation.antt =====
-- What `create` (src/v1/booking/services/booking.service.ts) writes and answers, and its totals.
use hotel_booking_management.Booking.Statuses.{visible_id}
use hotel_booking_management.Booking.Checks.{
  Validated, validate_and_prepare_rooms-Validated, IsBookable, Distinct,
  assert_no_double_booking-bookable, room_ids, IsPrepared,
}
use hotel_booking_management.Base.Exec.{Result, ok, err}
use hotel_booking_management.Booking.Calendar.{write_booking}
use hotel_booking_management.Base.{
  List, String, ◌∷◌, ◌≡◌, ◌++◌, arith, ◌∙◌, [], true, none, map, sym, refl, All, All-In, false,
  In-append_right, inl, In, Option-cases, inr,
}
use hotel_booking_management.Entities.{Surroundings, AuthenticatedUser, StayDb, Booking}
use hotel_booking_management.Booking.Request.{PreparedItem, Item, validate_and_prepare_rooms}
use hotel_booking_management.Booking.Service.{
  booking_room_data, new_booking, is_visible, find_one_or_fail, create, insert_booking,
}
use hotel_booking_management.Base.Table.{Orm}

-- The database with the new booking and its rooms.
abbrev pub booked : Surroundings → String → List PreparedItem → AuthenticatedUser → StayDb → StayDb
booked env reference ps user db = record db {
  bookings = db.bookings ++ new_booking env reference ps user ∷ [];
  booking_rooms = db.booking_rooms ++ booking_room_data env (env.fresh_id 0) 1 ps;
}

-- A request whose rooms are distinct and pass every check is written at the rate options that the
-- checks found and answered with its booking, or nothing is written.
abbrev pub Created :
    Surroundings
    → String
    → List Item
    → AuthenticatedUser
    → StayDb
    → Result Booking × StayDb
    → Type 0
Created env reference items user db (ok answer, db') =
    (ps : List PreparedItem) × (map (λ (p : PreparedItem). p.item) ps ≡ items)
    × All (IsBookable env db) items
    × Distinct (room_ids items)
    × (db' ≡ booked env reference ps user db)
    × In answer db'.bookings
    × (answer.id ≡ env.fresh_id 0)
    × (is_visible (env.fresh_id 0) user answer ≡ true)
    × All (IsPrepared env db) ps
Created env reference items user db (err e, db') = db' ≡ db

module _ (orm : Orm) (env : Surroundings) (reference : String) (items : List Item)
    (user : AuthenticatedUser) (db : StayDb) where
  new_visible :
      (ps : List PreparedItem)
      → is_visible (env.fresh_id 0) user (new_booking env reference ps user) ≡ true
  unfolding new_booking
  new_visible ps = ground arith

  found_again :
      (ps : List PreparedItem)
      → orm.find_one Booking
          (is_visible (env.fresh_id 0) user)
          (booked env reference ps user db).bookings
        ≡ none
      → ⊥
  found_again ps e =
      let b = new_booking env reference ps user in
      let hidden =
        All-In (λ x. is_visible (env.fresh_id 0) user x ≡ false) (db.bookings ++ b ∷ [])
          (orm.find_one_complete Booking (is_visible (env.fresh_id 0) user) (db.bookings ++ b ∷ [])
            e)
          (In-append_right b db.bookings (b ∷ []) (inl refl)) in
      cc (sym (new_visible ps) ∙ hidden)

  answer-Created :
      (ps : List PreparedItem)
      → map (λ (p : PreparedItem). p.item) ps ≡ items
      → All (IsBookable env db) items
      → Distinct (room_ids items)
      → All (IsPrepared env db) ps
      → Created env reference items user db
          (find_one_or_fail orm (env.fresh_id 0) user (booked env reference ps user db))
  unfolding find_one_or_fail
  answer-Created ps same bookable distinct prepared =
      elim (Option-cases (
        orm.find_one Booking (is_visible (env.fresh_id 0) user)
          (booked env reference ps user db).bookings)) [
            | inl e ↦ absurd (found_again ps e)
            | inr (answer, e) ↦
                let found =
                  orm.find_one_sound Booking (is_visible (env.fresh_id 0) user)
                    (booked env reference ps user db).bookings answer e in
                rw e (
                  ps,
                  same,
                  bookable,
                  distinct,
                  refl,
                  found.0,
                  visible_id (env.fresh_id 0) user answer found.1,
                  found.1,
                  prepared,
                )
          ]

  write_booking-Created :
      (r : Result (List PreparedItem) × StayDb)
      → Validated env db items r
      → Created env reference items user db (write_booking orm env reference items user r)
  unfolding write_booking insert_booking
  write_booking-Created (err e, db') v = v
  write_booking-Created (ok ps, db') v =
      rw (v.0, assert_no_double_booking-bookable env items db v.2)
        (answer-Created ps v.1 v.2 v.3 v.4)

  pub create-Created : Created env reference items user db (create orm env reference items user db)
  unfolding create write_booking
  create-Created =
      write_booking-Created (validate_and_prepare_rooms orm env items db)
        (validate_and_prepare_rooms-Validated orm env items db)
