-- ===== src/Cache/Memory.antt =====
-- A cache manager that keeps its entries in memory, for the examples.
use hotel_booking_management.Base.{
  Bool, ◌≡◌, true, ◌↔◌, Option, ℕ, ◌≢◌, if◌then◌else◌, refl, false, some, leb, Bool-cases, ◌+◌,
  none, inl, inr,
}
use hotel_booking_management.Cache.{CacheManager, Cached}

module _ {K : Type 0} (same : K → K → Bool)
    (same_iff : (a b : K) → (same a b ≡ true) ↔ (a ≡ b)) where
  abbrev fetch : {V : Type 0} → ℕ → Option (ℕ × Cached K V) → Option (Cached K V)
  fetch t none = none
  fetch t (some (until, v)) = if leb t until then some v else none

  pub same_self : (k : K) → same k k ≡ true
  same_self k = (same_iff k k).1 refl

  pub same_other : (k j : K) → k ≢ j → same k j ≡ false
  same_other k j ne = elim (Bool-cases (same k j)) [
    | inl e ↦ absurd (ne ((same_iff k j).0 e))
    | inr e ↦ e
  ]

  abbrev pub memory : (V : Type 0) → CacheManager K V
  memory V = record {
    Store = K → Option (ℕ × Cached K V);
    get = λ t k s. fetch t (s k);
    set = λ now k v ttl s j. if same k j then some (now + ttl, v) else s j;
    del = λ k s j. if same k j then none else s j;
    get-set_self = λ now t ttl k v s. rw (same_self k) refl;
    get-set_ne = λ now t ttl k j v s ne. rw (same_other k j ne) refl;
    get-del_self = λ t k s. rw (same_self k) refl;
    get-del_ne = λ t k j s ne. rw (same_other k j ne) refl;
  }
