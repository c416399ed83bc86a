-- ===== src/Cache/Tests.antt =====
-- The list caches at a cache of two keys.
use hotel_booking_management.Base.{
  ◌≡◌, ◌≢◌, Bool, none, true, ℕ, some, any, ◌∷◌, false, ◌↔◌, [], arith, refl,
}
use hotel_booking_management.Cache.{
  listing, keys, invalidate_lists, registered, cache_list, CacheManager, register_list_key,
}
use hotel_booking_management.Cache.Laws.{invalidate_clears, stale_after_invalidation, IsCovered}
use hotel_booking_management.Cache.Memory.{memory}

data Key : Type 0 where
  list_of_rooms registry : Key

abbrev same_key : Key → Key → Bool
same_key Key.list_of_rooms Key.list_of_rooms = true
same_key Key.registry Key.registry = true
same_key _ _ = false

same_key_iff : (a b : Key) → (same_key a b ≡ true) ↔ (a ≡ b)
same_key_iff Key.list_of_rooms Key.list_of_rooms = (λ h. refl, λ h. refl)
same_key_iff Key.list_of_rooms Key.registry = (λ h. cc, λ h. cc)
same_key_iff Key.registry Key.list_of_rooms = (λ h. cc, λ h. cc)
same_key_iff Key.registry Key.registry = (λ h. refl, λ h. refl)

abbrev cache : CacheManager Key ℕ
cache = memory same_key same_key_iff ℕ

abbrev empty : cache.Store
empty = λ k. none

-- A listing whose registry entry is about to expire.
abbrev old : cache.Store
old = cache.set 0 Key.registry (keys (Key.list_of_rooms ∷ [])) 10 empty

abbrev filled : cache.Store
filled = cache.set 0 Key.list_of_rooms (listing 5) 10 old

nothing-IsCovered : IsCovered same_key same_key_iff cache Key.registry 0 empty
nothing-IsCovered k v ne h = cc h

filled-IsCovered : IsCovered same_key same_key_iff cache Key.registry 0 filled
unfolding registered
filled-IsCovered Key.list_of_rooms v ne h = refl
filled-IsCovered Key.registry v ne h = absurd (ne refl)

list_ne : Key.list_of_rooms ≢ Key.registry
list_ne e = cc e

invalidate_clears_example :
    cache.get 0 Key.list_of_rooms (invalidate_lists same_key cache Key.registry 0 filled)
    ≢ some (listing 5)
invalidate_clears_example =
    invalidate_clears same_key same_key_iff cache Key.registry 0 filled Key.list_of_rooms 5
      filled-IsCovered list_ne

is_listed :
    cache.get 0 Key.list_of_rooms
      (cache_list same_key cache Key.registry 0 10 Key.list_of_rooms 5 empty)
    ≡ some (listing 5)
unfolding cache_list register_list_key registered
is_listed = refl

registered-old :
    any (same_key Key.list_of_rooms) (registered same_key cache Key.registry 5 old) ≡ true
unfolding registered
registered-old = refl

stale_after_invalidation_example :
    cache.get 14 Key.list_of_rooms (
      invalidate_lists same_key cache Key.registry 12
        (cache_list same_key cache Key.registry 5 10 Key.list_of_rooms 6 old))
    ≡ some (listing 6)
stale_after_invalidation_example =
    stale_after_invalidation same_key same_key_iff cache Key.registry 5 12 14 10 Key.list_of_rooms 6
      old list_ne registered-old refl (omega arith)
