-- ===== src/Room/Orderly.antt =====
-- The rooms under the writes of the room service.
use hotel_booking_management.Base.Keys.{UniqueIds-save, UniqueIds-append, UniqueIds-delete}
use hotel_booking_management.Room.Numbers.{
  UniqueNumbers, Apart, UniqueNumbers-save, UniqueNumbers-append, UniqueNumbers-delete,
  Apart-has_number,
}
use hotel_booking_management.Room.Keys.{UpdateRoom, CreateRoom}
use hotel_booking_management.Base.{
  List, ℕ, All, In, ◌≢◌, Bool-cases, any, ◌≡◌, ◌==◌, true, inr, inl, Option-cases, ◌&&◌, Bool, ◌∷◌,
  [], All-imp, false, arith, any-false, All-append,
}
use hotel_booking_management.Room.Service.{
  RoomManager, create_room, remove_room, updated_room, new_room, RoomState, is_room_type,
  has_number, is_room,
}
use hotel_booking_management.Entities.{Surroundings, StayDb, Room, RoomType, BookingRoom}
use hotel_booking_management.Base.Table.{Orm, UniqueIds, save, All-save, All-delete}

-- Rooms whose identifiers are unique, whose numbers are unique in their hotel, and whose types are
-- of their hotel; the identifiers of room types are unique.
pub record IsOrderly (db : StayDb) : Type 0 where
  pub ids : UniqueIds (λ (r : Room). r.id) db.rooms
  pub type_ids : UniqueIds (λ (t : RoomType). t.id) db.room_types
  pub numbers : UniqueNumbers db.rooms
  pub types : All (λ r. any (is_room_type r.room_type_id r.hotel_id) db.room_types ≡ true) db.rooms

-- The identifiers that the database generates are new, and differ.
abbrev pub AreFresh : Surroundings → List Room → Type 0
AreFresh env rooms =
    ((k : ℕ) → All (λ r. r.id ≢ env.fresh_id k) rooms)
    × ((j k : ℕ) → env.fresh_id j ≡ env.fresh_id k → j ≡ k)

module _ (orm : Orm) (cache : RoomManager) (env : Surroundings) where
  pub create_room-IsOrderly :
      (hotel_id : ℕ) (dto : CreateRoom) (s : RoomState cache)
      → AreFresh env s.db.rooms
      → IsOrderly s.db
      → IsOrderly (create_room orm cache env hotel_id dto s).1.db
  unfolding create_room new_room
  create_room-IsOrderly hotel_id dto s fresh o =
      let room = new_room (env.fresh_id 0) hotel_id dto in
      elim (Bool-cases (any (λ h. h == hotel_id) s.hotel_ids)) [
        | inr no_hotel ↦ rw no_hotel o
        | inl hotel ↦
            elim (Bool-cases (any (is_room_type dto.room_type_id hotel_id) s.db.room_types)) [
              | inr no_type ↦ rw (hotel, no_type) o
              | inl type ↦
                  elim (Bool-cases
                    (any (λ r. has_number hotel_id dto.room_number r && true) s.db.rooms)) [
                      | inl taken ↦ rw (hotel, type, taken) o
                      | inr free ↦
                          rw (hotel, type, free)
                            (record {
                              ids =
                                  UniqueIds-append (λ (r : Room). r.id) room s.db.rooms (fresh.0 0)
                                    o.ids;
                              type_ids = o.type_ids;
                              numbers =
                                  UniqueNumbers-append s.db.rooms (room ∷ []) o.numbers (tt, tt)
                                    (All-imp
                                      (λ r. (has_number hotel_id dto.room_number r && true) ≡ false)
                                      (λ r. Apart r room × Unit) s.db.rooms
                                      (λ r f. (Apart-has_number r room (ground arith), tt))
                                      (any-false
                                        (λ r. has_number hotel_id dto.room_number r && true)
                                        s.db.rooms free));
                              types =
                                  All-append
                                    (λ r.
                                      any (is_room_type r.room_type_id r.hotel_id) s.db.room_types
                                      ≡ true)
                                    s.db.rooms (room ∷ []) o.types (type, tt);
                            })
                    ]
            ]
      ]

  pub remove_room-IsOrderly :
      (hotel_id room_id : ℕ) (s : RoomState cache)
      → IsOrderly s.db
      → IsOrderly (remove_room orm cache env hotel_id room_id s).1.db
  unfolding remove_room
  remove_room-IsOrderly hotel_id room_id s o =
      elim (Bool-cases (any (λ h. h == hotel_id) s.hotel_ids)) [
        | inr no_hotel ↦ rw no_hotel o
        | inl hotel ↦
            elim (Option-cases (orm.find_one Room (is_room room_id hotel_id) s.db.rooms)) [
              | inl missing ↦ rw (hotel, missing) o
              | inr (r, found) ↦
                  elim (Bool-cases
                    (any (λ (b : BookingRoom). b.room_id == r.id) s.db.booking_rooms)) [
                      | inl booked ↦ rw (hotel, found, booked) o
                      | inr free ↦
                          let p : Room → Bool = λ x. x.id == r.id in
                          rw (hotel, found, free)
                            (record {
                              ids = UniqueIds-delete (λ (r : Room). r.id) p s.db.rooms o.ids;
                              type_ids = o.type_ids;
                              numbers = UniqueNumbers-delete p s.db.rooms o.numbers;
                              types =
                                  All-delete
                                    (λ r.
                                      any (is_room_type r.room_type_id r.hotel_id) s.db.room_types
                                      ≡ true)
                                    p s.db.rooms o.types;
                            })
                    ]
            ]
      ]

  -- The update of a room that has passed the checks.
  pub updated-IsOrderly :
      (dto : UpdateRoom) (r : Room) (db : StayDb)
      → IsOrderly db
      → In r db.rooms
      → any (is_room_type (updated_room dto r).room_type_id r.hotel_id) db.room_types ≡ true
      → All (λ x. x.id ≢ r.id → Apart x (updated_room dto r)) db.rooms
      → IsOrderly (record db { rooms = save (λ (x : Room). x.id) (updated_room dto r) db.rooms })
  unfolding updated_room
  updated-IsOrderly dto r db o m type apart = record {
    ids = UniqueIds-save (λ (x : Room). x.id) (updated_room dto r) db.rooms o.ids;
    type_ids = o.type_ids;
    numbers = UniqueNumbers-save (updated_room dto r) db.rooms o.ids o.numbers apart;
    types =
        All-save (λ x. any (is_room_type x.room_type_id x.hotel_id) db.room_types ≡ true)
          (λ (x : Room). x.id) (updated_room dto r) db.rooms type o.types;
  }
