-- ===== src/Cache/Laws.antt =====
-- Which listings survive an invalidation.
use hotel_booking_management.Cache.{
  CacheManager, delete_all, invalidate_lists, registered, cache_list, Cached, keys, listing,
}
use hotel_booking_management.Base.{
  Bool, ◌≡◌, true, ◌↔◌, ℕ, ◌⊎◌, List, ◌≢◌, some, Bool-cases, inl, any, leb, inr, false, sym, ◌+◌,
  ◌∙◌, ◌∷◌, arith, none, [], refl, ◌≤◌, subst, ◌++◌, any-append,
}

module _ {K V : Type 0} (same : K → K → Bool) (same_iff : (a b : K) → (same a b ≡ true) ↔ (a ≡ b))
    (cache : CacheManager K V) (registry_key : K) where
  -- At a time, every cached listing has its key in the registry.
  abbrev pub IsCovered : ℕ → cache.Store → Type 0
  IsCovered t s =
      (k : K) (v : V)
      → k ≢ registry_key
      → cache.get t k s ≡ some (listing v)
      → any (same k) (registered same cache registry_key t s) ≡ true

  pub key-cases : (a b : K) → (a ≡ b) ⊎ (a ≢ b)
  key-cases a b = elim (Bool-cases (same a b)) [
    | inl e ↦ inl ((same_iff a b).0 e)
    | inr e ↦ inr (λ h. let y = (same_iff a b).1 h in cc (sym e ∙ y))
  ]

  -- What is left after deletions was there, under a key that was not deleted.
  pub left_after_delete :
      (t : ℕ) (k : K) (c : Cached K V) (ks : List K) (s : cache.Store)
      → cache.get t k (delete_all same cache registry_key ks s) ≡ some c
      → (cache.get t k s ≡ some c) × (any (same k) ks ≡ false)
  unfolding delete_all
  left_after_delete t k c [] s h = (h, refl)
  left_after_delete t k c (j ∷ ks) s h =
      let (was, rest) = left_after_delete t k c ks (cache.del j s) h in
      elim (key-cases j k) [
        | inl e ↦ absurd (deleted e was)
        | inr ne ↦ (sym (cache.get-del_ne t j k s ne) ∙ was, rw (other ne) rest)
      ]
    where
      deleted : j ≡ k → cache.get t k (cache.del j s) ≡ some c → ⊥
      deleted e was =
          let gone : cache.get t k (cache.del j s) ≡ none = rw e (cache.get-del_self t k s) in
          cc (sym gone ∙ was)

      other : j ≢ k → same k j ≡ false
      other ne = elim (Bool-cases (same k j)) [
        | inl e ↦ absurd (ne (sym ((same_iff k j).0 e)))
        | inr e ↦ e
      ]

  -- If at the time of an invalidation the registry holds the key of every cached listing, no
  -- listing is served at that time after it.
  pub invalidate_clears :
      (now : ℕ) (s : cache.Store) (k : K) (v : V)
      → IsCovered now s
      → k ≢ registry_key
      → cache.get now k (invalidate_lists same cache registry_key now s) ≢ some (listing v)
  unfolding invalidate_lists
  invalidate_clears now s k v covered ne h =
      let ks = registered same cache registry_key now s in
      let was =
        sym (
          cache.get-del_ne now registry_key k (delete_all same cache registry_key ks s)
            (λ e. ne (sym e)))
        ∙ h in
      let (before, unlisted) = left_after_delete now k (listing v) ks s was in
      let listed = covered k v ne before in cc (sym unlisted ∙ listed)

  registered-set_ne :
      (now t ttl : ℕ) (key : K) (c : Cached K V) (s : cache.Store)
      → key ≢ registry_key
      → registered same cache registry_key t (cache.set now key c ttl s)
        ≡ registered same cache registry_key t s
  unfolding registered
  registered-set_ne now t ttl key c s ne =
      rw (registered, cache.get-set_ne now t ttl key registry_key c s ne)

  registered-set_self :
      (now ttl : ℕ) (ks : List K) (s : cache.Store)
      → registered same cache registry_key now (cache.set now registry_key (keys ks) ttl s) ≡ ks
  unfolding registered
  registered-set_self now ttl ks s =
      rw (registered, cache.get-set_self now now ttl registry_key (keys ks) s, still now ttl)
    where
      still : (now ttl : ℕ) → leb now (now + ttl) ≡ true
      still now ttl = ground arith

  -- A listing that is there after one was cached is under the new key or an old one.
  new_or_covered :
      (now ttl : ℕ) (key : K) (v : V) (s : cache.Store) (k : K) (w : V)
      → key ≢ registry_key
      → IsCovered now s
      → k ≢ registry_key
      → cache.get now k (cache.set now key (listing v) ttl s) ≡ some (listing w)
      → (key ≡ k)
        ⊎ (any
              (same k)
              (registered same cache registry_key now (cache.set now key (listing v) ttl s))
            ≡ true)
  new_or_covered now ttl key v s k w ne covered nk h = elim (key-cases key k) [
    | inl e ↦ inl e
    | inr other ↦ inr (
        rw (registered-set_ne now now ttl key (listing v) s ne)
          (covered k w nk (sym (cache.get-set_ne now now ttl key k (listing v) s other) ∙ h)))
  ]

  same_refl : (k : K) → same k k ≡ true
  same_refl k = (same_iff k k).1 refl

  registered-none :
      (t : ℕ) (s : cache.Store)
      → cache.get t registry_key s ≡ none
      → registered same cache registry_key t s ≡ []
  unfolding registered
  registered-none t s e = rw (registered, e)

  in_time : (t u ttl : ℕ) → u ≤ t + ttl → leb u (t + ttl) ≡ true
  in_time t u ttl h = ground arith

  -- If at a time the registry holds the key of every cached listing, it does so at that time
  -- after one more listing is cached and registered.
  pub cache_list-IsCovered :
      (now ttl : ℕ) (key : K) (v : V) (s : cache.Store)
      → key ≢ registry_key
      → IsCovered now s
      → IsCovered now (cache_list same cache registry_key now ttl key v s)
  unfolding cache_list
  cache_list-IsCovered now ttl key v s ne covered k w nk h =
      let s' = cache.set now key (listing v) ttl s in
      let ks = registered same cache registry_key now s' in
      elim (Bool-cases (any (same key) ks)) [
        | inl known ↦
            let h' : cache.get now k s' ≡ some (listing w) = rw known at h in
            rw known (elim (new_or_covered now ttl key v s k w ne covered nk h') [
              | inl e ↦ subst (λ j. any (same j) ks ≡ true) e known
              | inr c ↦ c
            ])
        | inr fresh ↦
            let h' : cache.get now k (cache.set now registry_key (keys (ks ++ key ∷ [])) ttl s')
                ≡ some (listing w) =
              rw fresh at h in
            let h'' =
              sym (
                cache.get-set_ne now now ttl registry_key k (keys (ks ++ key ∷ [])) s'
                  (λ e. nk (sym e)))
              ∙ h' in
            rw
              (
                fresh,
                registered-set_self now ttl (ks ++ key ∷ []) s',
                any-append (same k) ks (key ∷ []),
              )
              (elim (new_or_covered now ttl key v s k w ne covered nk h'') [
                | inl e ↦
                    (let r = subst (λ j. same k j ≡ true) (sym e) (same_refl k) in ground arith)
                | inr c ↦ rw c refl
              ])
      ]

  -- A listing whose key is still in the registry is cached again without renewing the registry: once
  -- the registry has expired, an invalidation leaves the listing, and it is served at every time until
  -- its own time to live has passed.
  pub stale_after_invalidation :
      (t u read ttl : ℕ) (key : K) (v : V) (s : cache.Store)
      → key ≢ registry_key
      → any (same key) (registered same cache registry_key t s) ≡ true
      → cache.get u registry_key s ≡ none
      → read ≤ t + ttl
      → cache.get read key (
          invalidate_lists same cache registry_key u
            (cache_list same cache registry_key t ttl key v s))
        ≡ some (listing v)
  unfolding invalidate_lists cache_list
  stale_after_invalidation t u read ttl key v s ne known expired late =
      let s' = cache.set t key (listing v) ttl s in
      let known' : any (same key) (registered same cache registry_key t s') ≡ true =
        rw (registered-set_ne t t ttl key (listing v) s ne) known in
      let lost = registered-set_ne t u ttl key (listing v) s ne ∙ registered-none u s expired in
      rw (
        known',
        invalidate_lists,
        lost,
        delete_all,
        cache.get-del_ne read registry_key key s' (λ e. ne (sym e)),
        cache.get-set_self t read ttl key (listing v) s,
        in_time t read ttl late,
      )
