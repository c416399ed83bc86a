-- ===== src/Cache/Holds.antt =====
-- What is known of every cached listing stays known: registerListKey and the invalidation of lists
-- (src/v1/payment/services/payment.service.ts).
use hotel_booking_management.Cache.{
  CacheManager, invalidate_lists, cache_list, registered, listing, register_list_key, delete_all,
  keys, Cached,
}
use hotel_booking_management.Base.{
  Bool, ◌≡◌, true, ◌↔◌, ℕ, some, List, inr, Bool-cases, inl, sym, any, none, ◌∙◌, ◌++◌,
  if◌then◌else◌, ◌∷◌, leb, [], ◌+◌, Option,
}
use hotel_booking_management.Cache.Laws.{left_after_delete, key-cases}

module _ {K V : Type 0} (same : K → K → Bool) (same_iff : (a b : K) → (same a b ≡ true) ↔ (a ≡ b))
    (cache : CacheManager K V) (registry_key : K) (P : K → V → Type 0) where
  -- Whatever listing is served at any time fits its key.
  abbrev pub Holds : cache.Store → Type 0
  Holds s = (t : ℕ) (k : K) (v : V) → cache.get t k s ≡ some (listing v) → P k v

  pub Holds-invalidate_lists :
      (now : ℕ) (s : cache.Store) → Holds s → Holds (invalidate_lists same cache registry_key now s)
  unfolding invalidate_lists
  Holds-invalidate_lists now s h t k v e =
      let ks = registered same cache registry_key now s in
      let left = delete_all same cache registry_key ks s in
      elim (key-cases same same_iff cache registry_key registry_key k) [
        | inl r ↦
            let gone : cache.get t k (cache.del registry_key left) ≡ none =
              rw (← r) (cache.get-del_self t registry_key left) in
            absurd (cc (sym gone ∙ e))
        | inr ne ↦
            h t k v
              (left_after_delete same same_iff cache registry_key t k (listing v) ks s
                (sym (cache.get-del_ne t registry_key k left ne) ∙ e)).0
      ]

  Holds-set_listing :
      (now ttl : ℕ) (key : K) (v : V) (s : cache.Store)
      → P key v
      → Holds s
      → Holds (cache.set now key (listing v) ttl s)
  Holds-set_listing now ttl key v s p h t k w e =
      elim (key-cases same same_iff cache registry_key key k) [
        | inr ne ↦ h t k w (sym (cache.get-set_ne now t ttl key k (listing v) s ne) ∙ e)
        | inl r ↦
            let served : (if leb t (now + ttl) then some (listing v) else none) ≡ some (listing w) =
              sym (cache.get-set_self now t ttl key (listing v) s) ∙ rw (← r) at e in
            elim (Bool-cases (leb t (now + ttl))) [
              | inr late ↦ absurd (cc (rw late at served))
              | inl valid ↦
                  let given : ◌≡◌ {A = Option (Cached K V)} (some (listing v)) (some (listing w)) =
                    rw valid at served in
                  let one : v ≡ w = cc in rw (← r, ← one) p
            ]
      ]

  Holds-set_keys :
      (now ttl : ℕ) (ks : List K) (s : cache.Store)
      → Holds s
      → Holds (cache.set now registry_key (keys ks) ttl s)
  Holds-set_keys now ttl ks s h t k w e =
      elim (key-cases same same_iff cache registry_key registry_key k) [
        | inr ne ↦ h t k w (sym (cache.get-set_ne now t ttl registry_key k (keys ks) s ne) ∙ e)
        | inl r ↦
            let served : (if leb t (now + ttl) then some (keys ks) else none) ≡ some (listing w) =
              sym (cache.get-set_self now t ttl registry_key (keys ks) s) ∙ rw (← r) at e in
            elim (Bool-cases (leb t (now + ttl))) [
              | inr late ↦ absurd (cc (rw late at served))
              | inl valid ↦ absurd (cc (rw valid at served))
            ]
      ]

  pub Holds-cache_list :
      (now ttl : ℕ) (key : K) (v : V) (s : cache.Store)
      → P key v
      → Holds s
      → Holds (cache_list same cache registry_key now ttl key v s)
  unfolding cache_list register_list_key
  Holds-cache_list now ttl key v s p h =
      let s' = cache.set now key (listing v) ttl s in
      let ks = registered same cache registry_key now s' in
      let cached = Holds-set_listing now ttl key v s p h in
      elim (Bool-cases (any (same key) ks)) [
        | inl known ↦ rw known cached
        | inr new ↦ rw new (Holds-set_keys now ttl (ks ++ key ∷ []) s' cached)
      ]
