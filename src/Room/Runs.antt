-- ===== src/Room/Runs.antt =====
-- The room service over every run of writes (src/v1/room/controllers/room.controller.ts).
use hotel_booking_management.Room.Updates.{bulk_create-IsOrderly}
use hotel_booking_management.Base.Exec.{Exception, err, ok}
use hotel_booking_management.Room.Numbers.{UniqueNumbers, Apart-In, Apart}
use hotel_booking_management.Room.Orderly.{
  IsOrderly, updated-IsOrderly, AreFresh, create_room-IsOrderly, remove_room-IsOrderly,
}
use hotel_booking_management.Entities.{Surroundings, Room}
use hotel_booking_management.Room.Keys.{CreateRoom, UpdateRoom}
use hotel_booking_management.Room.Service.{
  RoomManager, create_room, check_room_type, check_room_number, update_room, updated_room,
  RoomState, is_room_type, given, is_room, has_number, bulk_create, remove_room,
}
use hotel_booking_management.Base.{
  ℕ, List, Option, any, String, ◌≢◌, some, ◌≡◌, true, In, Bool-cases, ◌==◌, inr, ◌⊎◌, inl,
  Option-cases, All, eq_of_==, In-All, arith, All-In, none, refl, ◌&&◌, not, false, ==_refl, str_eq,
  str_eq_iff, false_of_ne, ap, ◌∙◌, All-imp, any-false, sym, ◌∷◌, [],
}
use hotel_booking_management.Base.Table.{Orm}

pub data RoomRequest : Type 0 where
  add_room : (hotel_id : ℕ) → CreateRoom → RoomRequest
  add_rooms : (hotel_id : ℕ) → List CreateRoom → RoomRequest
  change_room : (hotel_id room_id : ℕ) → UpdateRoom → RoomRequest
  drop_room : (hotel_id room_id : ℕ) → RoomRequest

module _ (orm : Orm) (cache : RoomManager) where
  module _ (env : Surroundings) where
    -- A check of an update throws, or leaves the state and has established what the update needs.
    type_checked :
        (hotel_id : ℕ) (r : Room) (type_id : Option ℕ) (s : RoomState cache)
        → any (is_room_type r.room_type_id hotel_id) s.db.room_types ≡ true
        → ((e : Exception) × (check_room_type orm cache env hotel_id r type_id s ≡ (err e, s)))
          ⊎ ((check_room_type orm cache env hotel_id r type_id s ≡ (ok tt, s))
              × (any (is_room_type (given type_id r.room_type_id) hotel_id) s.db.room_types ≡ true))
    unfolding check_room_type
    type_checked hotel_id r none s h = inr (refl, h)
    type_checked hotel_id r (some id) s h = elim (Bool-cases (id == r.room_type_id)) [
      | inl same ↦ rw same (inr (refl, rw (eq_of_== id r.room_type_id same) h))
      | inr other ↦ elim (Bool-cases (any (is_room_type id hotel_id) s.db.room_types)) [
        | inl known ↦ rw (other, known) (inr (refl, refl))
        | inr unknown ↦ rw (other, unknown) (inl (_, refl))
      ]
    ]

    number_checked :
        (hotel_id : ℕ) (r : Room) (number : Option String) (s : RoomState cache)
        → r.hotel_id ≡ hotel_id
        → number ≢ some ""
        → UniqueNumbers s.db.rooms
        → In r s.db.rooms
        → ((e : Exception) × (check_room_number orm cache env hotel_id r number s ≡ (err e, s)))
          ⊎ ((check_room_number orm cache env hotel_id r number s ≡ (ok tt, s))
              × All
                  (λ x.
                    x.id ≢ r.id
                    → x.hotel_id ≡ hotel_id
                    → x.room_number ≢ given number r.room_number)
                  s.db.rooms)
    unfolding check_room_number
    number_checked hotel_id r none s here ne u m = inr (
      refl,
      In-All s.db.rooms (λ x mx other same. Apart-In x r s.db.rooms u mx m other (same ∙ sym here)),
    )
    number_checked hotel_id r (some n) s here ne u m = elim (Bool-cases (str_eq n "")) [
      | inl empty ↦ absurd (ne (ap some ((str_eq_iff n "").0 empty)))
      | inr text ↦ elim (Bool-cases (str_eq n r.room_number)) [
        | inl same ↦
            rw (text, same)
              (inr (
                refl,
                In-All s.db.rooms (λ x mx other h k.
                    Apart-In x r s.db.rooms u mx m other (h ∙ sym here)
                      (k ∙ (str_eq_iff n r.room_number).0 same)),
              ))
        | inr other ↦
            elim (Bool-cases
              (any (λ x. has_number hotel_id n x && not (x.id == r.id)) s.db.rooms)) [
                | inl taken ↦ rw (text, other, taken) (inl (_, refl))
                | inr free ↦
                    rw (text, other, free)
                      (inr (
                        refl,
                        All-imp (λ x. (has_number hotel_id n x && not (x.id == r.id)) ≡ false)
                            (λ x. x.id ≢ r.id → x.hotel_id ≡ hotel_id → x.room_number ≢ n)
                            s.db.rooms
                            (λ x f differ h k. free_number x hotel_id n r.id f differ h k)
                            (any-false (λ x. has_number hotel_id n x && not (x.id == r.id))
                              s.db.rooms free),
                      ))
              ]
      ]
    ]
      where
        free_number :
            (x : Room) (h : ℕ) (n : String) (i : ℕ)
            → (has_number h n x && not (x.id == i)) ≡ false
            → x.id ≢ i
            → x.hotel_id ≡ h
            → x.room_number ≢ n
        free_number x h n i f differ same_hotel same_number =
            let a : (x.hotel_id == h) ≡ true = rw same_hotel (==_refl h) in
            let b : str_eq x.room_number n ≡ true = (str_eq_iff x.room_number n).1 same_number in
            absurd (cc (rw (a, b, false_of_ne x.id i differ) at f))

    update_room-IsOrderly :
        (hotel_id room_id : ℕ) (dto : UpdateRoom) (s : RoomState cache)
        → dto.room_number ≢ some ""
        → IsOrderly s.db
        → IsOrderly (update_room orm cache env hotel_id room_id dto s).1.db
    unfolding update_room updated_room
    update_room-IsOrderly hotel_id room_id dto s ne o =
        elim (Bool-cases (any (λ h. h == hotel_id) s.hotel_ids)) [
          | inr no_hotel ↦ rw no_hotel o
          | inl hotel ↦
              elim (Option-cases (orm.find_one Room (is_room room_id hotel_id) s.db.rooms)) [
                | inl missing ↦ rw (hotel, missing) o
                | inr (r, found) ↦
                    let (m, met) =
                      orm.find_one_sound Room (is_room room_id hotel_id) s.db.rooms r found in
                    let h : r.hotel_id ≡ hotel_id = ground arith in
                    let type : any (is_room_type r.room_type_id hotel_id) s.db.room_types ≡ true =
                      rw (← h) (
                        All-In
                          (λ x. any (is_room_type x.room_type_id x.hotel_id) s.db.room_types ≡ true)
                          s.db.rooms o.types m) in
                    elim (type_checked hotel_id r dto.room_type_id s type) [
                      | inl (e, wrong) ↦ rw (hotel, found, wrong) o
                      | inr (right, known) ↦
                          elim (number_checked hotel_id r dto.room_number s h ne o.numbers m) [
                            | inl (e, taken) ↦ rw (hotel, found, right, taken) o
                            | inr (fine, free) ↦
                                rw (hotel, found, right, fine)
                                  (updated-IsOrderly orm cache env dto r s.db o m (rw h known) (
                                    All-imp
                                      (λ x.
                                        x.id ≢ r.id
                                        → x.hotel_id ≡ hotel_id
                                        → x.room_number ≢ given dto.room_number r.room_number)
                                      (λ x. x.id ≢ r.id → Apart x (updated_room dto r)) s.db.rooms
                                      (λ x f differ same. f differ (same ∙ h)) free))
                          ]
                    ]
              ]
        ]

  -- The writes of the service, on the state that they leave.
  unfoldable pub handle_rooms : Surroundings → RoomRequest → RoomState cache → RoomState cache
  handle_rooms env (add_room hotel_id dto) s = (create_room orm cache env hotel_id dto s).1
  handle_rooms env (add_rooms hotel_id dtos) s = (bulk_create orm cache env hotel_id dtos s).1
  handle_rooms env (change_room hotel_id room_id dto) s =
      (update_room orm cache env hotel_id room_id dto s).1
  handle_rooms env (drop_room hotel_id room_id) s = (remove_room orm cache env hotel_id room_id s).1

  unfoldable pub run_rooms : List (Surroundings × RoomRequest) → RoomState cache → RoomState cache
  run_rooms [] s = s
  run_rooms (r ∷ rs) s = run_rooms rs (handle_rooms r.0 r.1 s)

  -- New identifiers are new, and the validation of the body refuses an empty number.
  abbrev pub IsValidRoomRequest : RoomRequest → Type 0
  IsValidRoomRequest (change_room hotel_id room_id dto) = dto.room_number ≢ some ""
  IsValidRoomRequest _ = Unit

  abbrev pub AreValid : List (Surroundings × RoomRequest) → RoomState cache → Type 0
  AreValid [] s = Unit
  AreValid (r ∷ rs) s =
      AreFresh r.0 s.db.rooms × IsValidRoomRequest r.1 × AreValid rs (handle_rooms r.0 r.1 s)

  handle_rooms-IsOrderly :
      (env : Surroundings) (q : RoomRequest) (s : RoomState cache)
      → AreFresh env s.db.rooms
      → IsValidRoomRequest q
      → IsOrderly s.db
      → IsOrderly (handle_rooms env q s).db
  unfolding handle_rooms
  handle_rooms-IsOrderly env (add_room hotel_id dto) s f v o =
      create_room-IsOrderly orm cache env hotel_id dto s f o
  handle_rooms-IsOrderly env (add_rooms hotel_id dtos) s f v o =
      bulk_create-IsOrderly orm cache env hotel_id dtos s f o
  handle_rooms-IsOrderly env (change_room hotel_id room_id dto) s f v o =
      update_room-IsOrderly env hotel_id room_id dto s v o
  handle_rooms-IsOrderly env (drop_room hotel_id room_id) s f v o =
      remove_room-IsOrderly orm cache env hotel_id room_id s o

  -- Over every run of creations, bulk creations, updates and removals of rooms, with new identifiers
  -- and numbers that are not empty: room numbers stay unique in their hotel, and every room's type is
  -- one of the room's hotel, without the unique index of the table, and although a bulk creation only
  -- counts the types that it finds.
  pub run_rooms-IsOrderly :
      (qs : List (Surroundings × RoomRequest)) (s : RoomState cache)
      → AreValid qs s
      → IsOrderly s.db
      → IsOrderly (run_rooms qs s).db
  unfolding run_rooms
  run_rooms-IsOrderly [] s v o = o
  run_rooms-IsOrderly (r ∷ rs) s v o =
      run_rooms-IsOrderly rs (handle_rooms r.0 r.1 s) v.2
        (handle_rooms-IsOrderly r.0 r.1 s v.0 v.1 o)
