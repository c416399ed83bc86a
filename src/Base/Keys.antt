-- ===== src/Base/Keys.antt =====
-- The primary key of a table under the statements that write it.
use hotel_booking_management.Base.Table.{
  UniqueIds, save, update, All-update, All-save, delete, All-delete,
}
use hotel_booking_management.Base.{
  ℕ, Bool, List, ◌≡◌, All, In, ◌≢◌, if◌then◌else◌, true, ◌++◌, ◌∷◌, any, [], Bool-cases, inl,
  All-append, ◌==◌, sym, ap, arith, eq_of_==, ◌∙◌, inr, All-imp, ne_of_==, false, refl, false_of_ne,
}

module _ {A : Type 0} (key : A → ℕ) where
  -- A row with a new key.
  pub UniqueIds-append :
      (e : A) (rows : List A)
      → All (λ x. key x ≢ key e) rows
      → UniqueIds key rows
      → UniqueIds key (rows ++ e ∷ [])
  UniqueIds-append e [] new u = (tt, tt)
  UniqueIds-append e (x ∷ xs) new u = (
    All-append (λ y. key y ≢ key x) xs (e ∷ []) u.0 ((λ h. new.0 (sym h)), tt),
    UniqueIds-append e xs new.1 u.1,
  )

  pub UniqueIds-save :
      (e : A) (rows : List A) → UniqueIds key rows → UniqueIds key (save key e rows)
  UniqueIds-save e [] u = (tt, tt)
  UniqueIds-save e (x ∷ xs) u = elim (Bool-cases (key x == key e)) [
    | inl same ↦
        let k = eq_of_== (key x) (key e) same in
        rw same
          (All-imp (λ y. key y ≢ key x) (λ y. key y ≢ key e) xs (λ y ne h. ne (h ∙ sym k)) u.0, u.1)
    | inr other ↦ rw other (
      All-save (λ y. key y ≢ key x) key e xs (λ h. ne_of_== (key x) (key e) other (sym h)) u.0,
      UniqueIds-save e xs u.1,
    )
  ]

  pub UniqueIds-update :
      (p : A → Bool) (f : A → A)
      → ((a : A) → key (f a) ≡ key a)
      → (rows : List A) → UniqueIds key rows
      → UniqueIds key (update p f rows)
  UniqueIds-update p f k [] u = tt
  UniqueIds-update p f k (x ∷ xs) u =
      let rest : All (λ y. key y ≢ key x) (update p f xs) =
        All-update (λ y. key y ≢ key x) p f xs (λ y _ ne h. ne (sym (k y) ∙ h)) u.0 in
      elim (Bool-cases (p x)) [
        | inl e ↦ rw e (
          All-imp (λ y. key y ≢ key x) (λ y. key y ≢ key (f x)) (update p f xs)
              (λ y ne h. ne (h ∙ k x)) rest,
          UniqueIds-update p f k xs u.1,
        )
        | inr e ↦ rw e (rest, UniqueIds-update p f k xs u.1)
      ]

-- A row is there after an update, changed if the update hits it.
pub In-update :
    {A : Type 0} (p : A → Bool) (f : A → A) (a : A) (rows : List A)
    → In a rows
    → In (if p a then f a else a) (update p f rows)
In-update p f a [] m = elim m [ ]
In-update p f a (x ∷ xs) (inl e) = inl (ap (λ y. if p y then f y else y) e)
In-update p f a (x ∷ xs) (inr m) = inr (In-update p f a xs m)

-- A row that passes a test after an update passed it before, where the update makes none pass.
pub any-update :
    {A : Type 0} (q p : A → Bool) (f : A → A) (rows : List A)
    → All (λ x. p x ≡ true → q (f x) ≡ true → q x ≡ true) rows
    → any q (update p f rows) ≡ true
    → any q rows ≡ true
any-update q p f [] h a = a
any-update q p f (x ∷ xs) h a = elim (Bool-cases (p x)) [
  | inl e ↦ (let h0 = h.0 e in ground (arith, any-update q p f xs h.1))
  | inr e ↦ ground (arith, any-update q p f xs h.1)
]

-- An update that hits no row.
pub update_none :
    {A : Type 0} (p : A → Bool) (f : A → A) (rows : List A)
    → All (λ x. p x ≡ false) rows
    → update p f rows ≡ rows
update_none p f [] h = refl
update_none p f (x ∷ xs) h = rw (h.0, update_none p f xs h.1) refl

-- A save overwrites an update of the same row.
pub save-update :
    {A : Type 0} (key : A → ℕ) (f : A → A) (e : A) (rows : List A)
    → UniqueIds key rows
    → ((x : A) → key (f x) ≡ key x)
    → save key e (update (λ x. key x == key e) f rows) ≡ save key e rows
save-update key f e [] u k = refl
save-update key f e (x ∷ xs) u k = elim (Bool-cases (key x == key e)) [
  | inl same ↦
      let others =
        All-imp (λ y. key y ≢ key x) (λ y. (key y == key e) ≡ false) xs
          (λ y ne. false_of_ne (key y) (key e) (λ h. ne (h ∙ sym (eq_of_== (key x) (key e) same))))
          u.0 in
      rw (same, k x, same, update_none (λ y. key y == key e) f xs others) refl
  | inr other ↦ rw (other, other, save-update key f e xs u.1 k) refl
]

pub UniqueIds-delete :
    {A : Type 0} (key : A → ℕ) (p : A → Bool) (rows : List A)
    → UniqueIds key rows
    → UniqueIds key (delete p rows)
UniqueIds-delete key p [] u = tt
UniqueIds-delete key p (x ∷ xs) u = elim (Bool-cases (p x)) [
  | inl e ↦ rw e (UniqueIds-delete key p xs u.1)
  | inr e ↦ rw e (All-delete (λ y. key y ≢ key x) p xs u.0, UniqueIds-delete key p xs u.1)
]

-- Two tables with keys that differ.
pub UniqueIds-append_rows :
    {A : Type 0} (key : A → ℕ) (rows new : List A)
    → UniqueIds key rows
    → UniqueIds key new
    → All (λ x. All (λ y. key y ≢ key x) new) rows
    → UniqueIds key (rows ++ new)
UniqueIds-append_rows key [] new u v h = v
UniqueIds-append_rows key (x ∷ xs) new u v h =
    (All-append (λ y. key y ≢ key x) xs new u.0 h.0, UniqueIds-append_rows key xs new u.1 v h.1)
