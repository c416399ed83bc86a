-- ===== src/Room/Keys.antt =====
-- The filters of the room list and the keys of its cache (src/v1/room/dto, and roomListKey and
-- roomListRegistryKey of src/v1/room/services/room.service.ts).
use hotel_booking_management.Entities.{RoomStatus}
use hotel_booking_management.Base.{
  ℕ, String, Option, Bool, ◌≡◌, ◌==◌, true, ◌&&◌, ◌↔◌, str_eq, arith, false, str_eq_iff,
}

pub record CreateRoom : Type 0 where
  pub room_type_id : ℕ
  pub room_number : String
  pub floor_number : ℕ
  pub status : RoomStatus

pub record UpdateRoom : Type 0 where
  pub room_type_id : Option ℕ
  pub room_number : Option String
  pub floor_number : Option ℕ
  pub status : Option RoomStatus

-- `FilterRoomDto`, with the defaults of `PaginationFilterDto` filled in.
pub record FilterRoom : Type 0 where
  pub room_type_id : Option ℕ
  pub status : Option RoomStatus
  pub min_price : Option ℕ
  pub max_price : Option ℕ
  pub page : ℕ
  pub limit : ℕ
  pub get_all : Bool

-- A key of the room cache: `rooms:list:${hotelId}:${stable}`, or the hotel's registry.
pub data RoomKey : Type 0 where
  room_list : ℕ → String → RoomKey
  room_registry : ℕ → RoomKey

abbrev pub same_room_key : RoomKey → RoomKey → Bool
same_room_key (room_list h f) (room_list h' f') = h == h' && str_eq f f'
same_room_key (room_registry h) (room_registry h') = h == h'
same_room_key _ _ = false

pub same_room_key_iff : (a b : RoomKey) → (same_room_key a b ≡ true) ↔ (a ≡ b)
same_room_key_iff (room_list h f) (room_list h' f') =
    (λ e. ground (arith, str_eq_iff f f'), λ e. ground (arith, str_eq_iff f f'))
same_room_key_iff (room_list h f) (room_registry h') = (λ e. cc, λ e. cc)
same_room_key_iff (room_registry h) (room_list h' f') = (λ e. cc, λ e. cc)
same_room_key_iff (room_registry h) (room_registry h') = (λ e. ground arith, λ e. ground arith)

-- `stable` stands for the text of `JSON.stringify(filter, Object.keys(filter).sort())`.
unfoldable pub room_list_key : (FilterRoom → String) → ℕ → FilterRoom → RoomKey
room_list_key stable hotel_id filter = room_list hotel_id (stable filter)
