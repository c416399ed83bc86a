-- ===== src/Room/Numbers.antt =====
-- Room numbers within a hotel.
use hotel_booking_management.Room.Service.{has_number, repeated_numbers}
use hotel_booking_management.Room.Service.{is_nil}
use hotel_booking_management.Entities.{Room}
use hotel_booking_management.Base.{
  Bool, List, ◌≡◌, ◌∷◌, All, String, ◌≢◌, ◌++◌, Bool-cases, false, select, [], All-append, inl,
  ◌==◌, true, In-All, inr, ==_refl, any, All-In, str_eq, ◌∙◌, str_eq_iff, All-imp, sym, arith,
  eq_of_==, ne_of_==, In, ap,
}
use hotel_booking_management.Base.Table.{UniqueIds, delete, save, All-delete, All-save}

-- Two rooms are not in one hotel under one number.
abbrev pub Apart : Room → Room → Type 0
Apart a b = a.hotel_id ≡ b.hotel_id → a.room_number ≢ b.room_number

abbrev pub UniqueNumbers : List Room → Type 0
UniqueNumbers [] = Unit
UniqueNumbers (r ∷ rs) = All (λ q. Apart r q) rs × UniqueNumbers rs

pub UniqueNumbers-append :
    (rows new : List Room)
    → UniqueNumbers rows
    → UniqueNumbers new
    → All (λ r. All (λ q. Apart r q) new) rows
    → UniqueNumbers (rows ++ new)
UniqueNumbers-append [] new u v h = v
UniqueNumbers-append (r ∷ rs) new u v h =
    (All-append (λ q. Apart r q) rs new u.0 h.0, UniqueNumbers-append rs new u.1 v h.1)

pub UniqueNumbers-save :
    (e : Room) (rows : List Room)
    → UniqueIds (λ (r : Room). r.id) rows
    → UniqueNumbers rows
    → All (λ r. r.id ≢ e.id → Apart r e) rows
    → UniqueNumbers (save (λ (r : Room). r.id) e rows)
UniqueNumbers-save e [] ids u h = (tt, tt)
UniqueNumbers-save e (r ∷ rs) ids u h = elim (Bool-cases (r.id == e.id)) [
  | inl same ↦
      let others = In-All rs (λ q m same_hotel same_number.
        let ne : q.id ≢ e.id =
          λ i. All-In (λ y. y.id ≢ r.id) rs ids.0 m (i ∙ sym (eq_of_== r.id e.id same)) in
        All-In (λ x. x.id ≢ e.id → Apart x e) rs h.1 m ne (sym same_hotel) (sym same_number)) in
      rw same (others, u.1)
  | inr other ↦ rw other (
    All-save (λ q. Apart r q) (λ (x : Room). x.id) e rs (h.0 (ne_of_== r.id e.id other)) u.0,
    UniqueNumbers-save e rs ids.1 u.1 h.1,
  )
]

pub UniqueNumbers-delete :
    (p : Room → Bool) (rows : List Room) → UniqueNumbers rows → UniqueNumbers (delete p rows)
UniqueNumbers-delete p [] u = tt
UniqueNumbers-delete p (r ∷ rs) u = elim (Bool-cases (p r)) [
  | inl e ↦ rw e (UniqueNumbers-delete p rs u.1)
  | inr e ↦ rw e (All-delete (λ q. Apart r q) p rs u.0, UniqueNumbers-delete p rs u.1)
]

-- A number that no room of the hotel has.
pub Apart-has_number : (r e : Room) → has_number e.hotel_id e.room_number r ≡ false → Apart r e
Apart-has_number r e h same_hotel same_number =
    let k : (r.hotel_id == e.hotel_id) ≡ true = rw same_hotel (==_refl e.hotel_id) in
    let n : str_eq r.room_number e.room_number ≡ true =
      (str_eq_iff r.room_number e.room_number).1 same_number in
    absurd (cc (rw (k, n) at h))

pub empty_select :
    {A : Type 0} (p : A → Bool) (rows : List A)
    → is_nil (select p rows) ≡ true
    → All (λ a. p a ≡ false) rows
empty_select p [] h = tt
empty_select p (a ∷ rest) h = elim (Bool-cases (p a)) [
  | inl e ↦ absurd (cc (rw e at h))
  | inr e ↦ (e, empty_select p rest (rw e at h))
]

-- The numbers of a request without repetition.
abbrev pub AllNew : List String → Type 0
AllNew [] = Unit
AllNew (n ∷ ns) = All (λ m. n ≢ m) ns × AllNew ns

unseen :
    (seen ns : List String)
    → is_nil (repeated_numbers seen ns) ≡ true
    → All (λ n. any (λ m. str_eq m n) seen ≡ false) ns
unseen seen [] h = tt
unseen seen (n ∷ ns) h = elim (Bool-cases (any (λ m. str_eq m n) seen)) [
  | inl e ↦ absurd (cc (rw e at h))
  | inr e ↦ (
    e,
    All-imp (λ k. any (λ m. str_eq m k) (n ∷ seen) ≡ false)
        (λ k. any (λ m. str_eq m k) seen ≡ false) ns (λ k f. ground arith)
        (unseen (n ∷ seen) ns (rw e at h)),
  )
]

pub AllNew-repeated_numbers :
    (seen ns : List String) → is_nil (repeated_numbers seen ns) ≡ true → AllNew ns
AllNew-repeated_numbers seen [] h = tt
AllNew-repeated_numbers seen (n ∷ ns) h = elim (Bool-cases (any (λ m. str_eq m n) seen)) [
  | inl e ↦ absurd (cc (rw e at h))
  | inr e ↦
      let rest : is_nil (repeated_numbers (n ∷ seen) ns) ≡ true = rw e at h in
      (
        All-imp (λ k. any (λ m. str_eq m k) (n ∷ seen) ≡ false) (λ k. n ≢ k) ns
            (λ k f same.
              let t : str_eq n k ≡ true = (str_eq_iff n k).1 same in absurd (cc (rw t at f)))
            (unseen (n ∷ seen) ns rest),
        AllNew-repeated_numbers (n ∷ seen) ns rest,
      )
]

-- Two rooms of an orderly table are apart, if they are not the same.
pub Apart-In :
    (a b : Room) (rows : List Room)
    → UniqueNumbers rows
    → In a rows
    → In b rows
    → a.id ≢ b.id
    → Apart a b
Apart-In a b [] u ma mb ne = elim ma [ ]
Apart-In a b (x ∷ xs) u (inl p) (inl q) ne = absurd (ne (ap (λ r. r.id) p ∙ sym (ap (λ r. r.id) q)))
Apart-In a b (x ∷ xs) u (inl p) (inr q) ne = rw p (All-In (λ y. Apart x y) xs u.0 q)
Apart-In a b (x ∷ xs) u (inr p) (inl q) ne = λ h n.
    All-In (λ y. Apart x y) xs u.0 p (sym (ap (λ r. r.hotel_id) q) ∙ sym h)
      (sym (ap (λ r. r.room_number) q) ∙ sym n)
Apart-In a b (x ∷ xs) u (inr p) (inr q) ne = Apart-In a b xs u.1 p q ne
