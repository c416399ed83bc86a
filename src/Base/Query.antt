-- ===== src/Base/Query.antt =====
-- What a query of one row finds.
use hotel_booking_management.Base.{
  Bool, List, ℕ, All, In, ◌≡◌, false, true, some, none, Option-cases, inl, ◌&&◌, ◌∷◌, inr, All-In,
  leb, sym, Bool-cases, ◌∙◌, [], arith, ◌++◌, In-append_right, ap, refl, select,
}
use hotel_booking_management.Base.Table.{Orm, find_newest, latest, delete}

module _ (orm : Orm) {A : Type 0} (p : A → Bool) where
  pub find_none : (rows : List A) → All (λ a. p a ≡ false) rows → orm.find_one A p rows ≡ none
  find_none rows h = elim (Option-cases (orm.find_one A p rows)) [
    | inl e ↦ e
    | inr (a, e) ↦
        let (m, met) = orm.find_one_sound A p rows a e in
        let unmet = All-In (λ x. p x ≡ false) rows h m in absurd (cc (sym unmet ∙ met))
  ]

  pub find_some :
      (a : A) (rows : List A) → In a rows → p a ≡ true → (b : A) × (orm.find_one A p rows ≡ some b)
  find_some a rows m met = elim (Option-cases (orm.find_one A p rows)) [
    | inl e ↦
        let unmet = All-In (λ x. p x ≡ false) rows (orm.find_one_complete A p rows e) m in
        absurd (cc (sym unmet ∙ met))
    | inr found ↦ found
  ]

  -- Where no other row meets the condition, the query finds the one that was added.
  pub find_appended :
      (a : A) (rows : List A)
      → All (λ x. p x ≡ false) rows
      → p a ≡ true
      → orm.find_one A p (rows ++ a ∷ []) ≡ some a
  find_appended a rows h met =
      let table = rows ++ a ∷ [] in
      let (b, e) = find_some a table (In-append_right a rows (a ∷ []) (inl refl)) met in
      let (m, found) = orm.find_one_sound A p table b e in
      e ∙ ap some (All-In (λ x. p x ≡ true → x ≡ a) table (only rows h) m found)
    where
      only :
          (rows : List A)
          → All (λ x. p x ≡ false) rows
          → All (λ x. p x ≡ true → x ≡ a) (rows ++ a ∷ [])
      only [] h = ((λ _. refl), tt)
      only (x ∷ xs) h = ((λ other. absurd (cc (sym h.0 ∙ other))), only xs h.1)

-- A newest row is one of the rows that meet the condition.
pub find_newest_sound :
    (orm : Orm) {A : Type 0} (created : A → ℕ) (p : A → Bool) (rows : List A) (a : A)
    → find_newest orm created p rows ≡ some a
    → In a rows × (p a ≡ true)
find_newest_sound orm {A} created p rows a e =
    let newest = latest p created rows in
    let (m, met) = orm.find_one_sound A (λ r. p r && leb newest (created r)) rows a e in
    (m, ground arith)

-- A row that the condition spares is there after a deletion.
pub In-delete :
    {A : Type 0} (p : A → Bool) (a : A) (rows : List A)
    → In a rows
    → p a ≡ false
    → In a (delete p rows)
In-delete p a [] m h = elim m [ ]
In-delete p a (x ∷ xs) (inl e) h = let hx : p x ≡ false = rw (← e) h in rw hx (inl e)
In-delete p a (x ∷ xs) (inr m) h = elim (Bool-cases (p x)) [
  | inl e ↦ rw e (In-delete p a xs m h)
  | inr e ↦ rw e (inr (In-delete p a xs m h))
]

pub In-select :
    {A : Type 0} (p : A → Bool) (a : A) (rows : List A)
    → In a (select p rows)
    → In a rows × (p a ≡ true)
In-select p a [] m = elim m [ ]
In-select p a (x ∷ xs) m = elim (Bool-cases (p x)) [
  | inl e ↦
      let m' : In a (x ∷ select p xs) = rw e at m in
      elim m' [
        | inl h ↦ (inl h, ap p h ∙ e)
        | inr t ↦ let (n, q) = In-select p a xs t in (inr n, q)
      ]
  | inr e ↦
      let m' : In a (select p xs) = rw e at m in let (n, q) = In-select p a xs m' in (inr n, q)
]

pub In-select_intro :
    {A : Type 0} (p : A → Bool) (a : A) (rows : List A)
    → In a rows
    → p a ≡ true
    → In a (select p rows)
In-select_intro p a [] m h = elim m [ ]
In-select_intro p a (x ∷ xs) (inl e) h = let hx : p x ≡ true = rw (← e) h in rw hx (inl e)
In-select_intro p a (x ∷ xs) (inr m) h = elim (Bool-cases (p x)) [
  | inl e ↦ rw e (inr (In-select_intro p a xs m h))
  | inr e ↦ rw e (In-select_intro p a xs m h)
]
