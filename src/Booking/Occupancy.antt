-- ===== src/Booking/Occupancy.antt =====
-- What a change of a booking's status does to the rooms.
use hotel_booking_management.Booking.Statuses.{
  patch_status-Patched, Patched, visible_id, bookings-sync_rooms, not_checked_in,
}
use hotel_booking_management.Base.Exec.{Result, ok, err}
use hotel_booking_management.Entities.{
  BookingStatus, StayDb, RoomStatus, Room, AuthenticatedUser, Booking, BookingRoom,
}
use hotel_booking_management.Booking.Service.{sync_rooms, patch_status}
use hotel_booking_management.Base.Table.{Orm, update, UniqueIds, In-save_other}
use hotel_booking_management.Base.{
  ℕ, Bool, if◌then◌else◌, List, ◌≡◌, any, map, ◌==◌, ◌∷◌, sym, ◌&&◌, select, Bool-cases, In, refl,
  inl, true, inr, [], In-map, ap, ◌∙◌,
}

-- The booking has a row for the room.
abbrev pub has_room : ℕ → StayDb → Room → Bool
has_room id db r =
    any (λ (br : BookingRoom). br.booking_id == id && br.room_id == r.id) db.booking_rooms

-- The status of a room after a change of the booking.
abbrev pub room_status_after : BookingStatus → RoomStatus → RoomStatus
room_status_after BookingStatus.checked_in s = RoomStatus.occupied
room_status_after BookingStatus.checked_out s = RoomStatus.available
room_status_after BookingStatus.cancelled s = RoomStatus.available
room_status_after _ s = s

abbrev pub room_after : ℕ → BookingStatus → StayDb → Room → Room
room_after id t db r = record r {
  status = if has_room id db r then room_status_after t r.status else r.status;
}

any-room_ids :
    (id : ℕ) (r : Room) (brs : List BookingRoom)
    → any
        (λ i. i == r.id)
        (map
          (λ (br : BookingRoom). br.room_id)
          (select (λ (br : BookingRoom). br.booking_id == id) brs))
      ≡ any (λ (br : BookingRoom). br.booking_id == id && br.room_id == r.id) brs
any-room_ids id r [] = refl
any-room_ids id r (br ∷ brs) = elim (Bool-cases (br.booking_id == id)) [
  | inl e ↦ rw (e, any-room_ids id r brs)
  | inr e ↦ rw (e, any-room_ids id r brs)
]

set_room_status_lem :
    (id : ℕ) (t : BookingStatus) (s : RoomStatus) (db : StayDb) (rooms : List Room)
    → ((r : Room) → room_status_after t r.status ≡ s)
    → update
        (λ (r : Room).
          any
            (λ i. i == r.id)
            (map
              (λ (br : BookingRoom). br.room_id)
              (select (λ (br : BookingRoom). br.booking_id == id) db.booking_rooms)))
        (λ r. record r { status = s })
        rooms
      ≡ map (room_after id t db) rooms
set_room_status_lem id t s db [] h = refl
set_room_status_lem id t s db (r ∷ rs) h = elim (Bool-cases (has_room id db r)) [
  | inl e ↦ rw (any-room_ids id r db.booking_rooms, e, set_room_status_lem id t s db rs h, h r)
  | inr e ↦ rw (any-room_ids id r db.booking_rooms, e, set_room_status_lem id t s db rs h)
]

map-same :
    (id : ℕ) (t : BookingStatus) (db : StayDb) (rooms : List Room)
    → ((r : Room) → room_status_after t r.status ≡ r.status)
    → map (room_after id t db) rooms ≡ rooms
map-same id t db [] h = refl
map-same id t db (r ∷ rs) h = elim (Bool-cases (has_room id db r)) [
  | inl e ↦ rw (e, map-same id t db rs h, h r)
  | inr e ↦ rw (e, map-same id t db rs h)
]

-- A change of a booking sets the rooms of its rows to OCCUPIED at check-in, to AVAILABLE at
-- check-out and cancellation, and leaves every other room.
pub rooms-sync_rooms :
    (id : ℕ) (t : BookingStatus) (db : StayDb)
    → (sync_rooms id t db).rooms ≡ map (room_after id t db) db.rooms
unfolding sync_rooms
rooms-sync_rooms id BookingStatus.checked_in db =
    set_room_status_lem id BookingStatus.checked_in RoomStatus.occupied db db.rooms (λ r. refl)
rooms-sync_rooms id BookingStatus.checked_out db =
    set_room_status_lem id BookingStatus.checked_out RoomStatus.available db db.rooms (λ r. refl)
rooms-sync_rooms id BookingStatus.cancelled db =
    set_room_status_lem id BookingStatus.cancelled RoomStatus.available db db.rooms (λ r. refl)
rooms-sync_rooms id BookingStatus.pending db =
    sym (map-same id BookingStatus.pending db db.rooms (λ r. refl))
rooms-sync_rooms id BookingStatus.confirmed db =
    sym (map-same id BookingStatus.confirmed db db.rooms (λ r. refl))

module _ (id : ℕ) (user : AuthenticatedUser) (db : StayDb) where
  Patched-frees :
      (room : Room) (guest : Booking) (r : Result Booking × StayDb)
      → UniqueIds (λ (b : Booking). b.id) db.bookings
      → In room db.rooms
      → In guest db.bookings
      → guest.status ≡ BookingStatus.checked_in
      → has_room id db room ≡ true
      → (answer : Booking) → r.0 ≡ ok answer
      → Patched id BookingStatus.cancelled user db r
      → In (record room { status = RoomStatus.available }) r.1.rooms × In guest r.1.bookings
  Patched-frees room guest (err e, db') u mr mg st h answer a p = absurd (cc a)
  Patched-frees room guest (ok answer', db') u mr mg st h answer a (b, mb, v, ch, e, _, _) =
      let held : has_room b.id db room ≡ true = rw (← visible_id id user b v) at h in
      (
        rw (e, rooms-sync_rooms) (freed b.id held mr),
        rw (e, bookings-sync_rooms)
            (In-save_other (λ (x : Booking). x.id) b (record b { status = BookingStatus.cancelled })
              guest db.bookings u mb refl mg
              (λ same. not_checked_in ch (sym (ap (λ (x : Booking). x.status) same) ∙ st))),
      )
    where
      freed :
          (i : ℕ)
          → has_room i db room ≡ true
          → In room db.rooms
          → In
              (record room { status = RoomStatus.available })
              (map (room_after i BookingStatus.cancelled db) db.rooms)
      freed i held m = rw held at (In-map (room_after i BookingStatus.cancelled db) room db.rooms m)

-- Cancelling a booking marks its rooms AVAILABLE even while the guest of another booking is checked
-- in there: that booking stays CHECKED_IN and its room becomes AVAILABLE.
pub cancel_frees_occupied_room :
    (orm : Orm) (id : ℕ) (user : AuthenticatedUser) (db : StayDb) (room : Room)
    (guest answer : Booking) (stay : BookingRoom)
    → UniqueIds (λ (b : Booking). b.id) db.bookings
    → In room db.rooms
    → In guest db.bookings
    → guest.status ≡ BookingStatus.checked_in
    → In stay db.booking_rooms × (stay.booking_id ≡ guest.id) × (stay.room_id ≡ room.id)
    → has_room id db room ≡ true
    → (patch_status orm id BookingStatus.cancelled user db).0 ≡ ok answer
    → let db' = (patch_status orm id BookingStatus.cancelled user db).1 in
      In (record room { status = RoomStatus.available }) db'.rooms × In guest db'.bookings
cancel_frees_occupied_room orm id user db room guest answer stay u mr mg st held h a =
    Patched-frees id user db room guest (patch_status orm id BookingStatus.cancelled user db) u mr
      mg st h answer a (patch_status-Patched orm id BookingStatus.cancelled user db)
