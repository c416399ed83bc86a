-- ===== src/Cache.antt =====
-- The list caches of the services: a listing is cached under a key, the keys in use are kept in a
-- registry under a key of its own, and a write deletes the listings that the registry names
-- (registerListKey and invalidate…Lists of src/v1/payment/services/payment.service.ts;
-- src/v1/hotel/services/hotel.service.ts and src/v1/room/services/room.service.ts have the same).
pub mod Laws
pub mod Holds
pub mod Memory
mod Tests
use hotel_booking_management.Base.{
  ℕ, Bool, List, Option, if◌then◌else◌, ◌∷◌, ◌≡◌, any, leb, ◌++◌, ◌+◌, [], some, none, ◌≢◌,
}

-- What is cached under a key: a listing, or the registry's keys.
pub data Cached (K V : Type 0) : Type 0 where
  listing : V → Cached K V
  keys : List K → Cached K V

-- The cache manager, a library: an entry is returned until its time to live has passed, or it is
-- deleted or replaced.
pub record CacheManager (K V : Type 0) : Type 1 where
  pub Store : Type 0
  pub get : ℕ → K → Store → Option (Cached K V)
  pub set : ℕ → K → Cached K V → ℕ → Store → Store
  pub del : K → Store → Store
  pub get-set_self :
      (now t ttl : ℕ) (k : K) (v : Cached K V) (s : Store)
      → get t k (set now k v ttl s) ≡ (if leb t (now + ttl) then some v else none)
  pub get-set_ne :
      (now t ttl : ℕ) (k j : K) (v : Cached K V) (s : Store)
      → k ≢ j
      → get t j (set now k v ttl s) ≡ get t j s
  pub get-del_self : (t : ℕ) (k : K) (s : Store) → get t k (del k s) ≡ none
  pub get-del_ne : (t : ℕ) (k j : K) (s : Store) → k ≢ j → get t j (del k s) ≡ get t j s

module _ {K V : Type 0} (same : K → K → Bool) (cache : CacheManager K V) (registry_key : K) where
  -- `(await cacheManager.get<string[]>(REGISTRY)) ?? []`
  unfoldable pub registered : ℕ → cache.Store → List K
  registered now s = elim (cache.get now registry_key s) [
    | none ↦ []
    | some c ↦ elim c [ listing v ↦ [] | keys ks ↦ ks ]
  ]

  unfoldable pub register_list_key : ℕ → ℕ → K → cache.Store → cache.Store
  unfolding registered
  register_list_key now ttl key s =
      let existing = registered now s in
      if any (same key) existing
      then s
      else cache.set now registry_key (keys (existing ++ key ∷ [])) ttl s

  unfoldable pub delete_all : List K → cache.Store → cache.Store
  delete_all [] s = s
  delete_all (k ∷ ks) s = delete_all ks (cache.del k s)

  unfoldable pub invalidate_lists : ℕ → cache.Store → cache.Store
  unfolding registered delete_all
  invalidate_lists now s = cache.del registry_key (delete_all (registered now s) s)

  -- The end of a listing's computation: it is cached, and its key registered.
  unfoldable pub cache_list : ℕ → ℕ → K → V → cache.Store → cache.Store
  unfolding register_list_key
  cache_list now ttl key v s = register_list_key now ttl key (cache.set now key (listing v) ttl s)
