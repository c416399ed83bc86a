-- ===== src/Booking/Checks.antt =====
-- What the checks of a booking request establish.
use hotel_booking_management.Base.{
  ℕ, ◌≤◌, ◌<◌, ◌≡◌, refl, true, false, List, [], ◌∷◌, map, All, All-imp, any, ◌==◌, Bool-cases, inl,
  inr, arith, ltb, subst, In, leb, Bool, ◌&&◌, Option-cases, eq_of_==,
}
use hotel_booking_management.Base.Table.{Orm}
use hotel_booking_management.Base.Exec.{Result, ok, err}
use hotel_booking_management.Entities.{StayDb, Surroundings, Room, RateOption, RoomType}
use hotel_booking_management.Booking.Request.{
  Item, PreparedItem, is_booked, prepare_item, prepare_items, repeated, is_empty,
  validate_and_prepare_rooms, assert_no_double_booking, prepare_in_room,
}

-- What holds of a room of the request once it has passed: its dates are ahead and in order, it is
-- stored and not booked for them, the rate option is stored and for the room's type, and the type,
-- stored as well, takes the guests.
pub record IsBookable (env : Surroundings) (db : StayDb) (item : Item) : Type 0 where
  pub ahead : env.midnight ≤ item.check_in_date.instant
  pub ordered : item.check_in_date.instant < item.check_out_date.instant
  pub unbooked : is_booked item db ≡ false
  pub room : Room
  pub room_stored : In room db.rooms
  pub room_asked : room.id ≡ item.room_id
  pub rate : RateOption
  pub rate_stored : In rate db.rate_options
  pub rate_asked : rate.id ≡ item.rate_option_id
  pub rate_of_type : rate.room_type_id ≡ room.room_type_id
  pub room_type : RoomType
  pub type_stored : In room_type db.room_types
  pub type_of_room : room_type.id ≡ room.room_type_id
  pub fits : item.guest_count ≤ room_type.max_occupancy

-- A prepared room passed the checks, and carries the rate option that they found.
abbrev pub IsPrepared : Surroundings → StayDb → PreparedItem → Type 0
IsPrepared env db p = (b : IsBookable env db p.item) × (p.rate_option ≡ b.rate)

-- The checks read only, and what passes them is bookable.
abbrev pub Prepared : Surroundings → StayDb → Item → Result PreparedItem × StayDb → Type 0
Prepared env db item (ok p, db') = (db' ≡ db) × (p.item ≡ item) × IsPrepared env db p
Prepared env db item (err e, db') = db' ≡ db

abbrev pub PreparedAll :
    Surroundings → StayDb → List Item → Result (List PreparedItem) × StayDb → Type 0
PreparedAll env db items (ok ps, db') =
    (db' ≡ db) × (map (λ (p : PreparedItem). p.item) ps ≡ items) × All (IsPrepared env db) ps
PreparedAll env db items (err e, db') = db' ≡ db

module _ (orm : Orm) (env : Surroundings) where
  abbrev is_rate : Item → Room → RateOption → Bool
  is_rate item room r = r.id == item.rate_option_id && r.room_type_id == room.room_type_id

  -- The checks that follow, once the room is known.
  with_room :
      (item : Item) (db : StayDb) (room : Room)
      → ltb item.check_in_date.instant env.midnight ≡ false
      → leb item.check_out_date.instant item.check_in_date.instant ≡ false
      → In room db.rooms × ((room.id == item.room_id) ≡ true)
      → is_booked item db ≡ false
      → Prepared env db item (prepare_in_room orm env item room db)
  unfolding prepare_in_room
  with_room item db room ahead ordered (m, asked) free =
      let is_type : RoomType → Bool = λ t. t.id == room.room_type_id in
      elim (Option-cases (orm.find_one RateOption (is_rate item room) db.rate_options)) [
        | inl no_rate ↦ rw no_rate refl
        | inr (rate, r) ↦ elim (Option-cases (orm.find_one RoomType is_type db.room_types)) [
          | inl no_type ↦ rw (r, no_type) refl
          | inr (kind, k) ↦ elim (Bool-cases (ltb kind.max_occupancy item.guest_count)) [
            | inl crowded ↦ rw (r, k, crowded) refl
            | inr fits ↦
                let (mr, rate_ok) =
                  orm.find_one_sound RateOption (is_rate item room) db.rate_options rate r in
                let (mk, kind_ok) = orm.find_one_sound RoomType is_type db.room_types kind k in
                let bookable : IsBookable env db item = record {
                  ahead = ground arith;
                  ordered = ground arith;
                  unbooked = free;
                  room = room;
                  room_stored = m;
                  room_asked = eq_of_== room.id item.room_id asked;
                  rate = rate;
                  rate_stored = mr;
                  rate_asked = ground arith;
                  rate_of_type = ground arith;
                  room_type = kind;
                  type_stored = mk;
                  type_of_room = eq_of_== kind.id room.room_type_id kind_ok;
                  fits = ground arith;
                } in
                rw (r, k, fits) (refl, refl, (bookable, refl))
          ]
        ]
      ]

  pub prepare_item-Prepared :
      (item : Item) (db : StayDb) → Prepared env db item (prepare_item orm env item db)
  unfolding prepare_item
  prepare_item-Prepared item db = elim (Bool-cases (ltb item.check_in_date.instant env.midnight)) [
    | inl past ↦ rw past refl
    | inr ahead ↦ elim (Bool-cases (leb item.check_out_date.instant item.check_in_date.instant)) [
      | inl reversed ↦ rw (ahead, reversed) refl
      | inr ordered ↦
          let asked : Room → Bool = λ r. r.id == item.room_id in
          elim (Option-cases (orm.find_one Room asked db.rooms)) [
            | inl no_room ↦ rw (ahead, ordered, no_room) refl
            | inr (room, r) ↦ elim (Bool-cases (is_booked item db)) [
              | inl booked ↦ rw (ahead, ordered, r, booked) refl
              | inr free ↦
                  rw (ahead, ordered, r, free)
                    (with_room item db room ahead ordered
                      (orm.find_one_sound Room asked db.rooms room r) free)
            ]
          ]
    ]
  ]

  prepare_items-PreparedAll :
      (items : List Item) (db : StayDb) → PreparedAll env db items (prepare_items orm env items db)
  unfolding prepare_items
  prepare_items-PreparedAll [] db = (refl, refl, tt)
  prepare_items-PreparedAll (item ∷ items) db =
      ground (arith, prepare_item-Prepared item db, prepare_items-PreparedAll items db)

-- What is known of the prepared rooms is known of the rooms of the request.
pub IsBookable-items :
    (env : Surroundings) (db : StayDb) (ps : List PreparedItem)
    → All (IsPrepared env db) ps
    → All (IsBookable env db) (map (λ (p : PreparedItem). p.item) ps)
IsBookable-items env db [] h = tt
IsBookable-items env db (p ∷ ps) h = (h.0.0, IsBookable-items env db ps h.1)

-- No number of the list stands in it twice.
abbrev pub Distinct : List ℕ → Type 0
Distinct [] = Unit
Distinct (x ∷ xs) = All (λ y. (x == y) ≡ false) xs × Distinct xs

unseen :
    (id : ℕ) (seen : List ℕ) (i : ℕ)
    → any (λ j. j == i) (id ∷ seen) ≡ false
    → ((id == i) ≡ false) × (any (λ j. j == i) seen ≡ false)
unseen id seen i h = ground arith

repeated-Distinct :
    (seen ids : List ℕ)
    → is_empty (repeated seen ids) ≡ true
    → All (λ i. any (λ j. j == i) seen ≡ false) ids × Distinct ids
unfolding repeated
repeated-Distinct seen [] h = (tt, tt)
repeated-Distinct seen (id ∷ ids) h = elim (Bool-cases (any (λ j. j == id) seen)) [
  | inl e ↦ let found : false ≡ true = rw e at h in cc
  | inr e ↦
      let ih = repeated-Distinct (id ∷ seen) ids (rw e at h) in
      (
        (
          e,
          All-imp (λ i. any (λ j. j == i) (id ∷ seen) ≡ false) (λ i. any (λ j. j == i) seen ≡ false)
              ids (λ i u. (unseen id seen i u).1) ih.0,
        ),
        (
          All-imp (λ i. any (λ j. j == i) (id ∷ seen) ≡ false) (λ i. (id == i) ≡ false) ids
              (λ i u. (unseen id seen i u).0) ih.0,
          ih.1,
        ),
      )
]

abbrev pub room_ids : List Item → List ℕ
room_ids items = map (λ (i : Item). i.room_id) items

abbrev pub Validated :
    Surroundings → StayDb → List Item → Result (List PreparedItem) × StayDb → Type 0
Validated env db items (ok ps, db') =
    (db' ≡ db)
    × (map (λ (p : PreparedItem). p.item) ps ≡ items)
    × All (IsBookable env db) items
    × Distinct (room_ids items)
    × All (IsPrepared env db) ps
Validated env db items (err e, db') = db' ≡ db

Validated-of_PreparedAll :
    (env : Surroundings) (db : StayDb) (items : List Item) (r : Result (List PreparedItem) × StayDb)
    → Distinct (room_ids items)
    → PreparedAll env db items r
    → Validated env db items r
Validated-of_PreparedAll env db items (ok ps, db') d h =
    (h.0, h.1, subst (All (IsBookable env db)) h.1 (IsBookable-items env db ps h.2), d, h.2)
Validated-of_PreparedAll env db items (err e, db') d h = h

-- A request that is accepted asks for each room once, and all its rooms are bookable.
pub validate_and_prepare_rooms-Validated :
    (orm : Orm) (env : Surroundings) (items : List Item) (db : StayDb)
    → Validated env db items (validate_and_prepare_rooms orm env items db)
unfolding validate_and_prepare_rooms
validate_and_prepare_rooms-Validated orm env items db =
    elim (Bool-cases (is_empty (repeated [] (room_ids items)))) [
      | inl e ↦ rw e (
          Validated-of_PreparedAll env db items (prepare_items orm env items db)
            (repeated-Distinct [] (room_ids items) e).1
            (prepare_items-PreparedAll orm env items db))
      | inr e ↦ rw e refl
    ]

pub assert_no_double_booking-state :
    (items : List Item) (db : StayDb) → (assert_no_double_booking items db).1 ≡ db
unfolding assert_no_double_booking
assert_no_double_booking-state [] db = refl
assert_no_double_booking-state (item ∷ items) db =
    ground (arith, assert_no_double_booking-state items db)

-- The second check passes whatever the first one has passed.
pub assert_no_double_booking-bookable :
    (env : Surroundings) (items : List Item) (db : StayDb)
    → All (IsBookable env db) items
    → assert_no_double_booking items db ≡ (ok tt, db)
unfolding assert_no_double_booking
assert_no_double_booking-bookable env [] db h = refl
assert_no_double_booking-bookable env (item ∷ items) db h =
    rw h.0.unbooked (assert_no_double_booking-bookable env items db h.1)
