-- ===== src/Room/Tests.antt =====
-- The room service at a small database.
use hotel_booking_management.Base.Exec.{err, conflict}
use hotel_booking_management.Entities.{Surroundings, RoomStatus, Room}
use hotel_booking_management.Cache.Memory.{memory}
use hotel_booking_management.Samples.{env, stays, room_at}
use hotel_booking_management.Room.Runs.{
  handle_rooms, AreValid, run_rooms, RoomRequest, run_rooms-IsOrderly, add_rooms, change_room,
}
use hotel_booking_management.Room.Keys.{UpdateRoom, CreateRoom, same_room_key, same_room_key_iff}
use hotel_booking_management.Room.Orderly.{IsOrderly}
use hotel_booking_management.Room.Service.{RoomManager, bulk_create, RoomState}
use hotel_booking_management.Base.{String, List, none, some, ◌∷◌, [], ◌≡◌, ℕ, refl, ◌+◌, arith}
use hotel_booking_management.Base.Table.{scan_order}

abbrev room_cache : RoomManager
room_cache = memory same_room_key same_room_key_iff (List Room × ℕ)

abbrev hotel : RoomState room_cache
hotel = record {
  db = record stays { rooms = room_at 20 RoomStatus.available ∷ [] };
  hotel_ids = 30 ∷ [];
  store = λ k. none;
}

abbrev body : String → CreateRoom
body number = record {
  room_type_id = 40;
  room_number = number;
  floor_number = 1;
  status = RoomStatus.available;
}

abbrev renumbered : UpdateRoom
renumbered = record {
  room_type_id = none;
  room_number = some "104";
  floor_number = none;
  status = none;
}

abbrev later : Surroundings
later = record env { fresh_id = λ k. 200 + k }

abbrev requests : List (Surroundings × RoomRequest)
requests =
    (env, add_rooms 30 (body "102" ∷ body "103" ∷ [])) ∷ (later, change_room 30 20 renumbered) ∷ []

bulk_create_repeated :
    (bulk_create scan_order room_cache env 30 (body "102" ∷ body "102" ∷ []) hotel).0
    ≡ err (conflict "Duplicate room numbers in request")
unfolding bulk_create
bulk_create_repeated = refl

bulk_create_taken :
    (bulk_create scan_order room_cache env 30 (body "101" ∷ []) hotel).0
    ≡ err (conflict "Room number(s) already exist in hotel")
unfolding bulk_create
bulk_create_taken = refl

hotel-IsOrderly : IsOrderly hotel.db
hotel-IsOrderly = record {
  ids = (tt, tt);
  type_ids = (tt, tt);
  numbers = (tt, tt);
  types = (refl, tt);
}

requests_valid : AreValid scan_order room_cache requests hotel
unfolding handle_rooms bulk_create
requests_valid = (
  ((λ k. (omega arith, tt)), (λ j k h. omega arith)),
  tt,
  (
    ((λ k. (omega arith, (omega arith, (omega arith, tt)))), (λ j k h. omega arith)),
    (λ h. absurd (cc h)),
    tt,
  ),
)

run_rooms-IsOrderly_example : IsOrderly (run_rooms scan_order room_cache requests hotel).db
run_rooms-IsOrderly_example =
    run_rooms-IsOrderly scan_order room_cache requests hotel requests_valid hotel-IsOrderly
