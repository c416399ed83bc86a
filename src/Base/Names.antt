-- ===== src/Base/Names.antt =====
-- Names that no two rows share.
use hotel_booking_management.Base.Keys.{update_none}
use hotel_booking_management.Base.{
  String, List, Bool, ℕ, ◌∷◌, All, ◌≢◌, Bool-cases, ◌≡◌, ◌++◌, inl, [], All-append, inr, ◌==◌, sym,
  eq_of_==, All-imp, ◌∙◌, false, false_of_ne, In-All, All-In, ne_of_==, In, ap,
}
use hotel_booking_management.Base.Table.{UniqueIds, delete, update, All-delete, save, All-save}

module _ {A : Type 0} (name : A → String) where
  abbrev pub UniqueNames : List A → Type 0
  UniqueNames [] = Unit
  UniqueNames (x ∷ xs) = All (λ y. name y ≢ name x) xs × UniqueNames xs

  pub UniqueNames-append :
      (e : A) (rows : List A)
      → All (λ x. name x ≢ name e) rows
      → UniqueNames rows
      → UniqueNames (rows ++ e ∷ [])
  UniqueNames-append e [] new u = (tt, tt)
  UniqueNames-append e (x ∷ xs) new u = (
    All-append (λ y. name y ≢ name x) xs (e ∷ []) u.0 ((λ h. new.0 (sym h)), tt),
    UniqueNames-append e xs new.1 u.1,
  )

  pub UniqueNames-delete :
      (p : A → Bool) (rows : List A) → UniqueNames rows → UniqueNames (delete p rows)
  UniqueNames-delete p [] u = tt
  UniqueNames-delete p (x ∷ xs) u = elim (Bool-cases (p x)) [
    | inl e ↦ rw e (UniqueNames-delete p xs u.1)
    | inr e ↦ rw e (All-delete (λ y. name y ≢ name x) p xs u.0, UniqueNames-delete p xs u.1)
  ]

  -- An update of the one row of a key, to a name that no other row has.
  pub UniqueNames-update :
      (key : A → ℕ) (id : ℕ) (f : A → A) (rows : List A)
      → UniqueIds key rows
      → UniqueNames rows
      → All (λ x. key x ≡ id → All (λ y. key y ≢ id → name y ≢ name (f x)) rows) rows
      → UniqueNames (update (λ x. key x == id) f rows)
  UniqueNames-update key id f [] ids u h = tt
  UniqueNames-update key id f (x ∷ xs) ids u h = elim (Bool-cases (key x == id)) [
    | inl e ↦
        let here = eq_of_== (key x) id e in
        let others =
          All-imp (λ y. key y ≢ key x) (λ y. key y ≢ id) xs (λ y ne k. ne (k ∙ sym here)) ids.0 in
        let untouched =
          update_none (λ y. key y == id) f xs
            (All-imp (λ y. key y ≢ id) (λ y. (key y == id) ≡ false) xs
              (λ y ne. false_of_ne (key y) id ne) others) in
        let apart = (h.0 here).1 in
        rw (e, untouched)
          (
            In-All xs (λ y m.
                All-In (λ y. key y ≢ id → name y ≢ name (f x)) xs apart m
                  (All-In (λ y. key y ≢ id) xs others m)),
            u.1,
          )
    | inr e ↦
        let ne = ne_of_== (key x) id e in
        let from_updated : All (λ y. key y ≡ id → name x ≢ name (f y)) xs =
          All-imp (λ y. key y ≡ id → All (λ z. key z ≢ id → name z ≢ name (f y)) (x ∷ xs))
            (λ y. key y ≡ id → name x ≢ name (f y)) xs (λ y g k. (g k).0 ne) h.1 in
        rw e (
          spared xs from_updated u.0,
          UniqueNames-update key id f xs ids.1 u.1 (
              All-imp (λ y. key y ≡ id → All (λ z. key z ≢ id → name z ≢ name (f y)) (x ∷ xs))
                (λ y. key y ≡ id → All (λ z. key z ≢ id → name z ≢ name (f y)) xs) xs
                (λ y g k. (g k).1) h.1),
        )
  ]
    where
      spared :
          (rows : List A)
          → All (λ y. key y ≡ id → name x ≢ name (f y)) rows
          → All (λ y. name y ≢ name x) rows
          → All (λ y. name y ≢ name x) (update (λ x. key x == id) f rows)
      spared [] g v = tt
      spared (y ∷ ys) g v = elim (Bool-cases (key y == id)) [
        | inl k ↦ rw k ((λ same. g.0 (eq_of_== (key y) id k) (sym same)), spared ys g.1 v.1)
        | inr k ↦ rw k (v.0, spared ys g.1 v.1)
      ]

-- Another row has another name.
pub name_of_other :
    {A : Type 0} (name : A → String) (key : A → ℕ) (a b : A) (rows : List A)
    → UniqueNames name rows
    → In a rows
    → In b rows
    → key a ≢ key b
    → name a ≢ name b
name_of_other name key a b [] u ma mb ne = elim ma [ ]
name_of_other name key a b (x ∷ xs) u (inl p) (inl q) ne = absurd (ne (ap key p ∙ sym (ap key q)))
name_of_other name key a b (x ∷ xs) u (inl p) (inr q) ne =
    λ h. All-In (λ y. name y ≢ name x) xs u.0 q (sym h ∙ ap name p)
name_of_other name key a b (x ∷ xs) u (inr p) (inl q) ne =
    λ h. All-In (λ y. name y ≢ name x) xs u.0 p (h ∙ ap name q)
name_of_other name key a b (x ∷ xs) u (inr p) (inr q) ne = name_of_other name key a b xs u.1 p q ne

-- A save of a row under a name that no other row has.
pub UniqueNames-save :
    {A : Type 0} (name : A → String) (key : A → ℕ) (e : A) (rows : List A)
    → UniqueIds key rows
    → UniqueNames name rows
    → All (λ x. key x ≢ key e → name x ≢ name e) rows
    → UniqueNames name (save key e rows)
UniqueNames-save name key e [] ids u h = (tt, tt)
UniqueNames-save name key e (x ∷ xs) ids u h = elim (Bool-cases (key x == key e)) [
  | inl same ↦
      let others = In-All xs (λ y m.
        All-In (λ z. key z ≢ key e → name z ≢ name e) xs h.1 m
          (λ k.
            All-In (λ z. key z ≢ key x) xs ids.0 m (k ∙ sym (eq_of_== (key x) (key e) same)))) in
      rw same (others, u.1)
  | inr other ↦ rw other (
    All-save (λ y. name y ≢ name x) key e xs (λ k. h.0 (ne_of_== (key x) (key e) other) (sym k))
        u.0,
    UniqueNames-save name key e xs ids.1 u.1 h.1,
  )
]
