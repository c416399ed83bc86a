-- ===== src/Room/Service.antt =====
-- The operations of the room service (src/v1/room/services/room.service.ts). The audit metadata that
-- `update` attaches to its answer is left out, and so is the unique index of the table.
use hotel_booking_management.Base.Exec.{
  Exec, throw_if, modify, ◌>>◌, pure, ◌>>=◌, not_found, gets, conflict, or_throw, query_failed,
}
use hotel_booking_management.Room.Keys.{
  UpdateRoom, RoomKey, CreateRoom, FilterRoom, room_list_key, same_room_key, room_registry,
}
use hotel_booking_management.Cache.{CacheManager, invalidate_lists, listing, keys, cache_list}
use hotel_booking_management.Entities.{
  StayDb, Surroundings, RoomType, Room, same_room_status, BookingRoom,
}
use hotel_booking_management.Base.{
  ℕ, List, Option, String, ◌∷◌, Bool, some, ◌==◌, if◌then◌else◌, true, ◌+◌, not, any, none, map,
  ◌&&◌, str_eq, false, ◌++◌, [], select, length, is_some, ◌||◌,
}
use hotel_booking_management.Base.Table.{Orm, save, delete}

abbrev pub RoomManager : Type 1
RoomManager = CacheManager RoomKey (List Room × ℕ)

module _ (cache : RoomManager) where
  -- The state of the service: the tables, the identifiers of the hotels, and the cache.
  pub record RoomState : Type 0 where
    pub db : StayDb
    pub hotel_ids : List ℕ
    pub store : cache.Store

abbrev pub is_room_type : ℕ → ℕ → RoomType → Bool
is_room_type id hotel_id t = t.id == id && t.hotel_id == hotel_id

abbrev pub has_number : ℕ → String → Room → Bool
has_number hotel_id number r = r.hotel_id == hotel_id && str_eq r.room_number number

abbrev pub is_room : ℕ → ℕ → Room → Bool
is_room id hotel_id r = r.id == id && r.hotel_id == hotel_id

-- `[...new Set(ids)]`
abbrev pub distinct : List ℕ → List ℕ
distinct [] = []
distinct (i ∷ is) = let rest = distinct is in if any (λ j. i == j) is then rest else i ∷ rest

-- The numbers of a request that occur in it before.
abbrev pub repeated_numbers : List String → List String → List String
repeated_numbers seen [] = []
repeated_numbers seen (n ∷ ns) =
    let rest = repeated_numbers (n ∷ seen) ns in
    if any (λ m. str_eq m n) seen then n ∷ rest else rest

abbrev pub is_nil : {A : Type 0} → List A → Bool
is_nil [] = true
is_nil (x ∷ xs) = false

abbrev pub given : {A : Type 0} → Option A → A → A
given none old = old
given (some a) old = a

unfoldable pub new_room : ℕ → ℕ → CreateRoom → Room
new_room id hotel_id dto = record {
  id = id;
  hotel_id = hotel_id;
  room_type_id = dto.room_type_id;
  room_number = dto.room_number;
  floor_number = dto.floor_number;
  status = dto.status;
}

-- The rows of a bulk creation, from the `k`-th identifier on.
unfoldable pub new_rooms : Surroundings → ℕ → ℕ → List CreateRoom → List Room
unfolding new_room
new_rooms env hotel_id k [] = []
new_rooms env hotel_id k (dto ∷ dtos) =
    new_room (env.fresh_id k) hotel_id dto ∷ new_rooms env hotel_id (k + 1) dtos

-- `preload`: the stored room with the fields that are given.
unfoldable pub updated_room : UpdateRoom → Room → Room
updated_room dto r = record r {
  room_type_id = given dto.room_type_id r.room_type_id;
  room_number = given dto.room_number r.room_number;
  floor_number = given dto.floor_number r.floor_number;
  status = given dto.status r.status;
}

-- The condition of the list, but for the prices.
unfoldable pub room_condition : ℕ → FilterRoom → Room → Bool
room_condition hotel_id filter r =
    r.hotel_id == hotel_id
    && (elim filter.room_type_id [ none ↦ true | some t ↦ r.room_type_id == t ]
        && elim filter.status [ none ↦ true | some s ↦ same_room_status r.status s ])

module _ (orm : Orm) (cache : RoomManager) (env : Surroundings) where
  abbrev pub RoomExec : Type 0 → Type 0
  RoomExec A = Exec (RoomState cache) A

  unfoldable pub assert_hotel_exists : ℕ → RoomExec (Unit {0})
  assert_hotel_exists hotel_id s =
      throw_if (not (any (λ h. h == hotel_id) s.hotel_ids)) (not_found "Hotel not found") s

  unfoldable pub assert_room_type_belongs_to_hotel : ℕ → ℕ → RoomExec (Unit {0})
  assert_room_type_belongs_to_hotel room_type_id hotel_id s =
      throw_if (not (any (is_room_type room_type_id hotel_id) s.db.room_types))
        (not_found "Room type not found in hotel") s

  unfoldable pub assert_room_number_unique : ℕ → String → Option ℕ → RoomExec (Unit {0})
  assert_room_number_unique hotel_id number exclude_room_id s =
      throw_if
        (any
          (λ r.
            has_number hotel_id number r
            && elim exclude_room_id [ none ↦ true | some id ↦ not (r.id == id) ])
          s.db.rooms)
        (conflict "Room number already exists in hotel") s

  abbrev pub write_rooms : (List Room → List Room) → RoomExec (Unit {0})
  write_rooms f = modify (λ s. record s { db = record s.db { rooms = f s.db.rooms } })

  unfoldable pub invalidate_room_lists : ℕ → RoomExec (Unit {0})
  invalidate_room_lists hotel_id = modify (λ s. record s {
    store = invalidate_lists same_room_key cache (room_registry hotel_id) env.now s.store;
  })

  unfoldable pub create_room : ℕ → CreateRoom → RoomExec Room
  unfolding assert_hotel_exists assert_room_type_belongs_to_hotel assert_room_number_unique
      invalidate_room_lists new_room
  create_room hotel_id dto = do
    assert_hotel_exists hotel_id
    assert_room_type_belongs_to_hotel dto.room_type_id hotel_id
    assert_room_number_unique hotel_id dto.room_number none
    let room = new_room (env.fresh_id 0) hotel_id dto
    write_rooms (λ rooms. rooms ++ room ∷ [])
    invalidate_room_lists hotel_id
    pure room

  unfoldable pub bulk_create : ℕ → List CreateRoom → RoomExec (List Room)
  unfolding assert_hotel_exists invalidate_room_lists new_rooms
  bulk_create hotel_id dtos = do
    assert_hotel_exists hotel_id
    let type_ids = distinct (map (λ (d : CreateRoom). d.room_type_id) dtos)
    valid_room_types ←
        gets (λ s.
          select (λ t. any (λ i. t.id == i) type_ids && t.hotel_id == hotel_id) s.db.room_types)
    throw_if (not (length valid_room_types == length type_ids))
        (not_found "Room type(s) not found in hotel")
    let numbers = map (λ (d : CreateRoom). d.room_number) dtos
    throw_if (not (is_nil (repeated_numbers [] numbers)))
        (conflict "Duplicate room numbers in request")
    existing_rooms ← gets (λ s.
        select (λ r. r.hotel_id == hotel_id && any (λ n. str_eq r.room_number n) numbers)
          s.db.rooms)
    throw_if (not (is_nil existing_rooms)) (conflict "Room number(s) already exist in hotel")
    let rooms = new_rooms env hotel_id 0 dtos
    write_rooms (λ rows. rows ++ rooms)
    invalidate_room_lists hotel_id
    pure rooms

  -- The checks of an update, which are passed over where nothing changes.
  unfoldable pub check_room_type : ℕ → Room → Option ℕ → RoomExec (Unit {0})
  unfolding assert_room_type_belongs_to_hotel
  check_room_type hotel_id room none = pure tt
  check_room_type hotel_id room (some id) =
      if not (id == room.room_type_id)
      then assert_room_type_belongs_to_hotel id hotel_id
      else pure tt

  unfoldable pub check_room_number : ℕ → Room → Option String → RoomExec (Unit {0})
  unfolding assert_room_number_unique
  check_room_number hotel_id room none = pure tt
  check_room_number hotel_id room (some number) =
      if not (str_eq number "") && not (str_eq number room.room_number)
      then assert_room_number_unique hotel_id number (some room.id)
      else pure tt

  unfoldable pub update_room : ℕ → ℕ → UpdateRoom → RoomExec Room
  unfolding assert_hotel_exists check_room_type check_room_number invalidate_room_lists updated_room
  update_room hotel_id room_id dto = do
    assert_hotel_exists hotel_id
    found ← gets (λ s. orm.find_one Room (is_room room_id hotel_id) s.db.rooms)
    room ← or_throw found (not_found "Room not found in hotel")
    check_room_type hotel_id room dto.room_type_id
    check_room_number hotel_id room dto.room_number
    let updated = updated_room dto room
    write_rooms (save (λ (r : Room). r.id) updated)
    invalidate_room_lists hotel_id
    pure updated

  -- The rows of bookings refer to their rooms, which the database then does not delete.
  unfoldable pub remove_room : ℕ → ℕ → RoomExec (Unit {0})
  unfolding assert_hotel_exists invalidate_room_lists
  remove_room hotel_id room_id = do
    assert_hotel_exists hotel_id
    found ← gets (λ s. orm.find_one Room (is_room room_id hotel_id) s.db.rooms)
    room ← or_throw found (not_found "Room not found in hotel")
    booked ← gets (λ s. any (λ (b : BookingRoom). b.room_id == room.id) s.db.booking_rooms)
    throw_if booked (query_failed "foreign key violation")
    write_rooms (delete (λ (r : Room). r.id == room.id))
    invalidate_room_lists hotel_id

  -- `page` orders and pages the rows, as `getManyAndCount` does. A filter on prices names a column
  -- that rate options do not have, and the database refuses the query.
  unfoldable pub find_all_by_hotel :
      (FilterRoom → List Room → List Room × ℕ)
      → ℕ
      → (FilterRoom → String)
      → ℕ
      → FilterRoom
      → RoomExec (List Room × ℕ)
  unfolding assert_hotel_exists room_list_key room_condition
  find_all_by_hotel page ttl stable hotel_id filter = do
    assert_hotel_exists hotel_id
    let key = room_list_key stable hotel_id filter
    cached ← gets (λ s. cache.get env.now key s.store)
    elim cached [
      | some c ↦ elim c [ listing result ↦ pure result | keys ks ↦ pure ([], 0) ]
      | none ↦ do
        throw_if (is_some filter.min_price || is_some filter.max_price)
            (query_failed "column rateOption.price does not exist")
        result ← gets (λ s. page filter (select (room_condition hotel_id filter) s.db.rooms))
        modify (λ s. record s {
          store =
              cache_list same_room_key cache (room_registry hotel_id) env.now ttl key result
                s.store;
        })
        pure result
    ]
