-- ===== src/Booking/Totals.antt =====
-- What a new booking costs: `create` and `calcNights` of
-- src/v1/booking/services/booking.service.ts.
use hotel_booking_management.Booking.Request.{
  DateString, Item, PreparedItem, calc_nights, ms_per_day,
}
use hotel_booking_management.Entities.{
  Booking, BookingRoom, Surroundings, AuthenticatedUser, StayDb, BookingStatus,
}
use hotel_booking_management.Booking.Service.{
  total_guest, room_total, booking_room_data, total_price, booking_room, new_booking, create,
}
use hotel_booking_management.Base.Table.{Orm}
use hotel_booking_management.Booking.Creation.{Created, create-Created, booked}
use hotel_booking_management.Booking.Calendar.{IsUnused}
use hotel_booking_management.Booking.Checks.{IsPrepared}
use hotel_booking_management.Base.{
  ap, sym, map, In, select, List, ℕ, ◌≡◌, ◌*◌, All, ◌-◌, ◌∷◌, arith, ◌+◌, ◌==◌, ◌≢◌, String, ◌<◌,
  ◌/◌, ◌∙◌, false, true, ◌++◌, [], inl, refl, inr, subst,
}
use hotel_booking_management.Base.Exec.{ok}

-- A date without a time of the day, which is the midnight of its day.
abbrev pub IsDay : DateString → Type 0
IsDay d = d.instant ≡ d.day * ms_per_day

abbrev pub IsWholeDays : Item → Type 0
IsWholeDays item = IsDay item.check_in_date × IsDay item.check_out_date

-- Less than half a day passes between the instants.
abbrev pub IsShort : Item → Type 0
IsShort item = 2 * (item.check_out_date.instant - item.check_in_date.instant) < ms_per_day

-- What the rooms of a request cost: the price of a night for each night of the stay.
abbrev pub price_of_stays : List PreparedItem → ℕ
price_of_stays [] = 0
price_of_stays (p ∷ ps) =
    p.rate_option.price_per_night * (p.item.check_out_date.day - p.item.check_in_date.day)
    + price_of_stays ps

abbrev pub guests_of_stays : List PreparedItem → ℕ
guests_of_stays [] = 0
guests_of_stays (p ∷ ps) = p.item.guest_count + guests_of_stays ps

abbrev pub sum_of_rooms : List BookingRoom → ℕ
sum_of_rooms [] = 0
sum_of_rooms (br ∷ brs) = br.room_total_price + sum_of_rooms brs

-- The sum of what the code computes for each room.
abbrev price_of_rooms : List PreparedItem → ℕ
price_of_rooms [] = 0
price_of_rooms (p ∷ ps) = room_total p + price_of_rooms ps

days_between : (i o : ℕ) → (o * ms_per_day - i * ms_per_day + ms_per_day / 2) / ms_per_day ≡ o - i
days_between i o = omega arith

room_total_days :
    (p : PreparedItem)
    → IsWholeDays p.item
    → room_total p
      ≡ p.rate_option.price_per_night * (p.item.check_out_date.day - p.item.check_in_date.day)
unfolding room_total calc_nights
room_total_days p (i, o) =
    rw (i, o, days_between p.item.check_in_date.day p.item.check_out_date.day) refl

room_total_short : (p : PreparedItem) → IsShort p.item → room_total p ≡ 0
unfolding room_total calc_nights
room_total_short p h =
    let none_there : calc_nights p.item.check_in_date p.item.check_out_date ≡ 0 = omega arith in
    let zero_price : p.rate_option.price_per_night * 0 ≡ 0 = omega arith in
    ap (λ (n : ℕ). p.rate_option.price_per_night * n) none_there ∙ zero_price

total_price_lem : (t : ℕ) (ps : List PreparedItem) → total_price t ps ≡ t + price_of_rooms ps
unfolding total_price
total_price_lem t [] = omega arith
total_price_lem t (p ∷ ps) = rw (total_price_lem (t + room_total p) ps) (omega arith)

total_guest_lem : (t : ℕ) (ps : List PreparedItem) → total_guest t ps ≡ t + guests_of_stays ps
unfolding total_guest
total_guest_lem t [] = omega arith
total_guest_lem t (p ∷ ps) = rw (total_guest_lem (t + p.item.guest_count) ps) (omega arith)

abbrev items_of : List PreparedItem → List Item
items_of ps = map (λ (p : PreparedItem). p.item) ps

whole_days_lem :
    (ps : List PreparedItem) → All IsWholeDays (items_of ps) → price_of_rooms ps ≡ price_of_stays ps
whole_days_lem [] h = refl
whole_days_lem (p ∷ ps) h = rw (room_total_days p h.0, whole_days_lem ps h.1) refl

short_lem : (ps : List PreparedItem) → All IsShort (items_of ps) → price_of_rooms ps ≡ 0
short_lem [] h = refl
short_lem (p ∷ ps) h = rw (room_total_short p h.0, short_lem ps h.1) refl

-- The rows of `booking_rooms` that belong to a booking.
abbrev pub rooms_of : ℕ → List BookingRoom → List BookingRoom
rooms_of id rows = select (λ (br : BookingRoom). br.booking_id == id) rows

rooms_of_old :
    (id : ℕ) (rows more : List BookingRoom)
    → All (λ br. (id == br.booking_id) ≡ false) rows
    → rooms_of id (rows ++ more) ≡ rooms_of id more
rooms_of_old id [] more h = refl
rooms_of_old id (br ∷ rows) more h =
    let other : (br.booking_id == id) ≡ false = ground arith in
    rw (other, rooms_of_old id rows more h.1) refl

rooms_of_new :
    (env : Surroundings) (id k : ℕ) (ps : List PreparedItem)
    → sum_of_rooms (rooms_of id (booking_room_data env id k ps)) ≡ price_of_rooms ps
unfolding booking_room_data booking_room
rooms_of_new env id k [] = refl
rooms_of_new env id k (p ∷ ps) =
    let same : (id == id) ≡ true = ground arith in rw (same, rooms_of_new env id (k + 1) ps) refl

-- The row of an identifier that was free before is the one that was added.
added_row :
    (new b : Booking) (rows : List Booking)
    → All (λ (r : Booking). r.id ≢ new.id) rows
    → In b (rows ++ new ∷ [])
    → b.id ≡ new.id
    → b ≡ new
added_row new b [] free (inl e) same = e
added_row new b [] free (inr m) same = elim m [ ]
added_row new b (r ∷ rows) free (inl e) same =
    absurd (free.0 (ap (λ (x : Booking). x.id) (sym e) ∙ same))
added_row new b (r ∷ rows) free (inr m) same = added_row new b rows free.1 m same

module _ (orm : Orm) (env : Surroundings) (reference : String) (items : List Item)
    (user : AuthenticatedUser) (db : StayDb) where
  -- What the answer of a request that succeeds says of its price.
  abbrev pub Priced : Booking → StayDb → Type 0
  Priced b db' =
      (ps : List PreparedItem) × (items_of ps ≡ items)
      × All (IsPrepared env db) ps
      × In b db'.bookings
      × (b.status ≡ BookingStatus.pending)
      × (b.user_id ≡ user.id)
      × (b.total_price ≡ price_of_stays ps)
      × (sum_of_rooms (rooms_of b.id db'.booking_rooms) ≡ b.total_price)
      × (b.total_guest ≡ guests_of_stays ps)

  written_rooms :
      (ps : List PreparedItem)
      → IsUnused (env.fresh_id 0) db
      → sum_of_rooms (rooms_of (env.fresh_id 0) (booked env reference ps user db).booking_rooms)
        ≡ price_of_rooms ps
  written_rooms ps unused =
      rw
        (
          rooms_of_old (env.fresh_id 0) db.booking_rooms
              (booking_room_data env (env.fresh_id 0) 1 ps) unused,
          rooms_of_new env (env.fresh_id 0) 1 ps,
        )
        refl

  answered :
      (b : Booking) (db' : StayDb)
      → All (λ (r : Booking). r.id ≢ env.fresh_id 0) db.bookings
      → Created env reference items user db (ok b, db')
      → (ps : List PreparedItem) × (items_of ps ≡ items)
        × All (IsPrepared env db) ps
        × (db' ≡ booked env reference ps user db)
        × (b ≡ new_booking env reference ps user)
        × In b db'.bookings
  unfolding new_booking
  answered b db' free (ps, m, _, _, e, found, i, _, prepared) = (
    ps,
    m,
    prepared,
    e,
    added_row (new_booking env reference ps user) b db.bookings free (rw e at found) i,
    found,
  )

  -- For identifiers that are not in use and dates without a time of the day: a booking that `create`
  -- answers is stored, PENDING and the caller's; its total is the sum of what its stored rooms cost,
  -- and is the price of a night at the rate options that the checks found, times the days from
  -- check-in to check-out, over all rooms; it counts the guests of all rooms.
  pub create-Priced :
      (b : Booking) (db' : StayDb)
      → All IsWholeDays items
      → IsUnused (env.fresh_id 0) db
      → All (λ (r : Booking). r.id ≢ env.fresh_id 0) db.bookings
      → create orm env reference items user db ≡ (ok b, db')
      → Priced b db'
  unfolding new_booking
  create-Priced b db' whole unused free h =
      let (ps, m, prepared, e, same, found) = answered b db' free (
        subst (Created env reference items user db) h
          (create-Created orm env reference items user db)) in
      let price = whole_days_lem ps (subst (All IsWholeDays) (sym m) whole) in
      let total : (new_booking env reference ps user).total_price ≡ price_of_rooms ps =
        total_price_lem 0 ps ∙ omega arith in
      (
        ps,
        m,
        prepared,
        found,
        ap (λ (x : Booking). x.status) same,
        ap (λ (x : Booking). x.user_id) same,
        ap (λ (x : Booking). x.total_price) same ∙ (total ∙ price),
        rw (e, same) (written_rooms ps unused ∙ sym total),
        ap (λ (x : Booking). x.total_guest) same ∙ (total_guest_lem 0 ps ∙ omega arith),
      )

  -- Where the dates carry times of the day that are less than half a day apart for every room, a
  -- booking that `create` answers costs nothing.
  pub short_stay_is_free :
      (b : Booking) (db' : StayDb)
      → All IsShort items
      → All (λ (r : Booking). r.id ≢ env.fresh_id 0) db.bookings
      → create orm env reference items user db ≡ (ok b, db')
      → In b db'.bookings × (b.total_price ≡ 0)
  unfolding new_booking
  short_stay_is_free b db' short free h =
      let (ps, m, prepared, e, same, found) = answered b db' free (
        subst (Created env reference items user db) h
          (create-Created orm env reference items user db)) in
      let price = short_lem ps (subst (All IsShort) (sym m) short) in
      (
        found,
        ap (λ (x : Booking). x.total_price) same ∙ (total_price_lem 0 ps ∙ omega (arith, price)),
      )
