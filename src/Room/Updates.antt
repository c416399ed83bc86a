-- ===== src/Room/Updates.antt =====
-- Updates and bulk creations of rooms.
use hotel_booking_management.Base.Counting.{one_of, every_key_found}
use hotel_booking_management.Base.Keys.{UniqueIds-append_rows}
use hotel_booking_management.Room.Orderly.{AreFresh, IsOrderly}
use hotel_booking_management.Room.Numbers.{
  AllNew, Apart, UniqueNumbers, UniqueNumbers-append, AllNew-repeated_numbers, empty_select,
}
use hotel_booking_management.Room.Keys.{CreateRoom}
use hotel_booking_management.Entities.{Surroundings, Room, RoomType}
use hotel_booking_management.Room.Service.{
  new_rooms, RoomManager, new_room, bulk_create, distinct, RoomState, is_room_type, is_nil,
  repeated_numbers,
}
use hotel_booking_management.Base.{
  ℕ, List, All, ◌≡◌, ◌≢◌, map, ◌≤◌, any, ◌∷◌, arith, All-imp, ◌==◌, Bool-cases, ◌+◌, ◌&&◌, inr,
  String, sym, true, inl, str_eq, [], ◌∙◌, false, refl, eq_of_==, ==_refl, All-In, str_eq_iff, Bool,
  length, select, In-All, All-append,
}
use hotel_booking_management.Base.Table.{Orm, UniqueIds, In-of_any}

-- The numbers of the rows of a bulk creation.
new_rooms-Apart :
    (env : Surroundings) (hotel_id k : ℕ) (dtos : List CreateRoom) (r : Room)
    → All
        (λ n. r.hotel_id ≡ hotel_id → r.room_number ≢ n)
        (map (λ (d : CreateRoom). d.room_number) dtos)
    → All (λ q. Apart r q) (new_rooms env hotel_id k dtos)
unfolding new_rooms new_room
new_rooms-Apart env hotel_id k [] r h = tt
new_rooms-Apart env hotel_id k (dto ∷ dtos) r h =
    (h.0, new_rooms-Apart env hotel_id (k + 1) dtos r h.1)

new_rooms-UniqueNumbers :
    (env : Surroundings) (hotel_id k : ℕ) (dtos : List CreateRoom)
    → AllNew (map (λ (d : CreateRoom). d.room_number) dtos)
    → UniqueNumbers (new_rooms env hotel_id k dtos)
unfolding new_rooms new_room
new_rooms-UniqueNumbers env hotel_id k [] h = tt
new_rooms-UniqueNumbers env hotel_id k (dto ∷ dtos) h = (
  new_rooms-Apart env hotel_id (k + 1) dtos (new_room (env.fresh_id k) hotel_id dto) (
      All-imp (λ n. dto.room_number ≢ n) (λ n. hotel_id ≡ hotel_id → dto.room_number ≢ n)
        (map (λ (d : CreateRoom). d.room_number) dtos) (λ n ne same. ne) h.0),
  new_rooms-UniqueNumbers env hotel_id (k + 1) dtos h.1,
)

-- Their identifiers are new ones.
new_rooms_ids :
    (env : Surroundings) (hotel_id k : ℕ) (dtos : List CreateRoom)
    → All
        (λ (r : Room). (j : ℕ) × (k ≤ j) × (r.id ≡ env.fresh_id j))
        (new_rooms env hotel_id k dtos)
unfolding new_rooms new_room
new_rooms_ids env hotel_id k [] = tt
new_rooms_ids env hotel_id k (dto ∷ dtos) = (
  (k, omega arith, refl),
  All-imp (λ (r : Room). (j : ℕ) × (k + 1 ≤ j) × (r.id ≡ env.fresh_id j))
      (λ (r : Room). (j : ℕ) × (k ≤ j) × (r.id ≡ env.fresh_id j))
      (new_rooms env hotel_id (k + 1) dtos) (λ r (j, above, e). (j, omega arith, e))
      (new_rooms_ids env hotel_id (k + 1) dtos),
)

new_rooms-UniqueIds :
    (env : Surroundings) (hotel_id k : ℕ) (dtos : List CreateRoom)
    → ((i j : ℕ) → env.fresh_id i ≡ env.fresh_id j → i ≡ j)
    → UniqueIds (λ (r : Room). r.id) (new_rooms env hotel_id k dtos)
unfolding new_rooms new_room
new_rooms-UniqueIds env hotel_id k [] inj = tt
new_rooms-UniqueIds env hotel_id k (dto ∷ dtos) inj = (
  All-imp (λ (r : Room). (j : ℕ) × (k + 1 ≤ j) × (r.id ≡ env.fresh_id j))
      (λ (r : Room). r.id ≢ env.fresh_id k) (new_rooms env hotel_id (k + 1) dtos)
      (λ r (j, above, e) same. (let i : k ≡ j = inj k j (sym same ∙ e) in absurd (omega arith)))
      (new_rooms_ids env hotel_id (k + 1) dtos),
  new_rooms-UniqueIds env hotel_id (k + 1) dtos inj,
)

new_rooms_types :
    (env : Surroundings) (hotel_id k : ℕ) (dtos : List CreateRoom) (types : List RoomType)
    → All
        (λ i. any (λ t. t.id == i && t.hotel_id == hotel_id) types ≡ true)
        (map (λ (d : CreateRoom). d.room_type_id) dtos)
    → All
        (λ (r : Room). any (is_room_type r.room_type_id r.hotel_id) types ≡ true)
        (new_rooms env hotel_id k dtos)
unfolding new_rooms new_room
new_rooms_types env hotel_id k [] types h = tt
new_rooms_types env hotel_id k (dto ∷ dtos) types h =
    (h.0, new_rooms_types env hotel_id (k + 1) dtos types h.1)

-- What holds of the distinct members of a list holds of all.
All-distinct : (P : ℕ → Type 0) (is : List ℕ) → All P (distinct is) → All P is
All-distinct P [] h = tt
All-distinct P (i ∷ is) h = elim (Bool-cases (any (λ j. i == j) is)) [
  | inr e ↦ (let h' : All P (i ∷ distinct is) = rw e at h in (h'.0, All-distinct P is h'.1))
  | inl e ↦
      let h' : All P (distinct is) = rw e at h in
      let rest = All-distinct P is h' in
      let (j, m, same) = In-of_any (λ j. i == j) is e in
      let here : P i = rw (eq_of_== i j same) (All-In P is rest m) in (here, rest)
]

module _ (orm : Orm) (cache : RoomManager) (env : Surroundings) where
  pub bulk_create-IsOrderly :
      (hotel_id : ℕ) (dtos : List CreateRoom) (s : RoomState cache)
      → AreFresh env s.db.rooms
      → IsOrderly s.db
      → IsOrderly (bulk_create orm cache env hotel_id dtos s).1.db
  unfolding bulk_create
  bulk_create-IsOrderly hotel_id dtos s fresh o =
      let numbers = map (λ (d : CreateRoom). d.room_number) dtos in
      let type_ids = distinct (map (λ (d : CreateRoom). d.room_type_id) dtos) in
      let q : RoomType → Bool = λ t. t.hotel_id == hotel_id in
      let new = new_rooms env hotel_id 0 dtos in
      let taken : Room → Bool =
        λ r. r.hotel_id == hotel_id && any (λ n. str_eq r.room_number n) numbers in
      elim (Bool-cases (any (λ h. h == hotel_id) s.hotel_ids)) [
        | inr no_hotel ↦ rw no_hotel o
        | inl hotel ↦
            elim (Bool-cases (
              length (select (one_of (λ (t : RoomType). t.id) q type_ids) s.db.room_types)
              == length type_ids)) [
                | inr short ↦ rw (hotel, short) o
                | inl full ↦ elim (Bool-cases (is_nil (repeated_numbers [] numbers))) [
                  | inr repeated ↦ rw (hotel, full, repeated) o
                  | inl once ↦ elim (Bool-cases (is_nil (select taken s.db.rooms))) [
                    | inr clash ↦ rw (hotel, full, once, clash) o
                    | inl free ↦
                        let found =
                          every_key_found (λ (t : RoomType). t.id) q type_ids s.db.room_types
                            o.type_ids
                            (eq_of_==
                              (length (
                                select (one_of (λ (t : RoomType). t.id) q type_ids)
                                  s.db.room_types))
                              (length type_ids) full) in
                        rw (hotel, full, once, free)
                          (record {
                            ids =
                                UniqueIds-append_rows (λ (r : Room). r.id) s.db.rooms new o.ids
                                  (new_rooms-UniqueIds env hotel_id 0 dtos fresh.1)
                                  (In-All s.db.rooms (λ r m.
                                    All-imp
                                      (λ (e : Room). (j : ℕ) × (0 ≤ j) × (e.id ≡ env.fresh_id j))
                                      (λ (e : Room). e.id ≢ r.id) new
                                      (λ e (j, above, i) same.
                                        All-In (λ x. x.id ≢ env.fresh_id j) s.db.rooms (fresh.0 j) m
                                          (sym same ∙ i))
                                      (new_rooms_ids env hotel_id 0 dtos)));
                            type_ids = o.type_ids;
                            numbers =
                                UniqueNumbers-append s.db.rooms new o.numbers
                                  (new_rooms-UniqueNumbers env hotel_id 0 dtos
                                    (AllNew-repeated_numbers [] numbers once))
                                  (All-imp (λ r. taken r ≡ false) (λ r. All (λ q. Apart r q) new)
                                    s.db.rooms
                                    (λ r f.
                                      new_rooms-Apart env hotel_id 0 dtos r
                                        (not_taken hotel_id numbers r f))
                                    (empty_select taken s.db.rooms free));
                            types =
                                All-append
                                  (λ r.
                                    any (is_room_type r.room_type_id r.hotel_id) s.db.room_types
                                    ≡ true)
                                  s.db.rooms new o.types
                                  (new_rooms_types env hotel_id 0 dtos s.db.room_types (
                                    All-distinct
                                      (λ i. any (λ t. t.id == i && q t) s.db.room_types ≡ true)
                                      (map (λ (d : CreateRoom). d.room_type_id) dtos) found));
                          })
                  ]
                ]
              ]
      ]
    where
      not_taken :
          (hotel_id : ℕ) (numbers : List String) (r : Room)
          → (r.hotel_id == hotel_id && any (λ n. str_eq r.room_number n) numbers) ≡ false
          → All (λ n. r.hotel_id ≡ hotel_id → r.room_number ≢ n) numbers
      not_taken hotel_id [] r f = tt
      not_taken hotel_id (n ∷ ns) r f = (
        λ h same.
            let a : (r.hotel_id == hotel_id) ≡ true = rw h (==_refl hotel_id) in
            let b : str_eq r.room_number n ≡ true = (str_eq_iff r.room_number n).1 same in
            absurd (cc (rw (a, b) at f)),
        not_taken hotel_id ns r (ground arith),
      )
