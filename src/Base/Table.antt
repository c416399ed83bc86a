-- ===== src/Base/Table.antt =====
-- The rows of a table, and what a statement does to them. A table is the list of its rows, in the
-- order in which the database scans them. Which of several matching rows a query without an order
-- returns is the database's choice, and a parameter.
use hotel_booking_management.Base.{any, ◌≢◌, ◌⊎◌, ◌∙◌, arith, ap, All-In, eq_of_==}
use hotel_booking_management.Base.Tests.{Bool-cases, ◌==◌, leb, if◌then◌else◌}
use hotel_booking_management.Base.Lists.{In, All}
use Prim.Native.Nat.{ℕ, max}
use mathlib.Core.Path.{refl, sym, ◌≡◌}
use mathlib.Core.Bool.{Bool, true, false, ◌&&◌}
use mathlib.Core.Logic.{inl, inr}
use mathlib.Core.Option.{Option, none, some}
use mathlib.Core.List.{List, [], ◌∷◌}

-- `repository.findOne({ where })`: a row that meets the condition, or null where none does.
pub record Orm : Type 1 where
  pub find_one : (A : Type 0) → (A → Bool) → List A → Option A
  pub find_one_sound :
      (A : Type 0) (p : A → Bool) (rows : List A) (a : A)
      → find_one A p rows ≡ some a
      → In a rows × (p a ≡ true)
  pub find_one_complete :
      (A : Type 0) (p : A → Bool) (rows : List A)
      → find_one A p rows ≡ none
      → All (λ a. p a ≡ false) rows

module _ {A : Type 0} where
  -- `repository.save(entity)`: the row with the entity's key is replaced, or a row is added.
  abbrev pub save : (A → ℕ) → A → List A → List A
  save key e [] = e ∷ []
  save key e (x ∷ xs) = if key x == key e then e ∷ xs else x ∷ save key e xs

  -- `repository.update(where, values)`
  abbrev pub update : (A → Bool) → (A → A) → List A → List A
  update p f [] = []
  update p f (x ∷ xs) = (if p x then f x else x) ∷ update p f xs

  -- `repository.delete(where)`
  abbrev pub delete : (A → Bool) → List A → List A
  delete p [] = []
  delete p (x ∷ xs) = let rest = delete p xs in if p x then rest else x ∷ rest

  -- the latest creation time among the rows that meet a condition
  abbrev pub latest : (A → Bool) → (A → ℕ) → List A → ℕ
  latest p created [] = 0
  latest p created (x ∷ xs) =
      let rest = latest p created xs in if p x then max (created x) rest else rest

  -- `findOne` with `order: { createdAt: 'DESC' }`: a matching row that no other one is newer than.
  abbrev pub find_newest : Orm → (A → ℕ) → (A → Bool) → List A → Option A
  find_newest orm created p rows =
      let newest = latest p created rows in orm.find_one A (λ r. p r && leb newest (created r)) rows

  -- The database that returns the first matching row of its scan.
  abbrev first_match : (A → Bool) → List A → Option A
  first_match p [] = none
  first_match p (x ∷ xs) = let rest = first_match p xs in if p x then some x else rest

  pub first_match_sound :
      (p : A → Bool) (rows : List A) (a : A)
      → first_match p rows ≡ some a
      → In a rows × (p a ≡ true)
  first_match_sound p [] a h = cc
  first_match_sound p (x ∷ xs) a h = elim (Bool-cases (p x)) [
    | inl e ↦
        let same : some x ≡ some a = rw e at h in let s : x ≡ a = cc in (inl (sym s), rw (← s) e)
    | inr e ↦ let ih = first_match_sound p xs a (rw e at h) in (inr ih.0, ih.1)
  ]

  pub first_match_complete :
      (p : A → Bool) (rows : List A) → first_match p rows ≡ none → All (λ a. p a ≡ false) rows
  first_match_complete p [] h = tt
  first_match_complete p (x ∷ xs) h = elim (Bool-cases (p x)) [
    | inl e ↦ let no_row : some x ≡ none = rw e at h in cc
    | inr e ↦ (e, first_match_complete p xs (rw e at h))
  ]

abbrev pub scan_order : Orm
scan_order = record {
  find_one = λ A p rows. first_match p rows;
  find_one_sound = λ A p rows a h. first_match_sound p rows a h;
  find_one_complete = λ A p rows h. first_match_complete p rows h;
}

module _ {A : Type 0} (P : A → Type 0) where
  pub All-save : (key : A → ℕ) (e : A) (rows : List A) → P e → All P rows → All P (save key e rows)
  All-save key e [] h hs = (h, tt)
  All-save key e (x ∷ xs) h hs = elim (Bool-cases (key x == key e)) [
    | inl same ↦ rw same (h, hs.1)
    | inr other ↦ rw other (hs.0, All-save key e xs h hs.1)
  ]

  pub All-update :
      (p : A → Bool) (f : A → A) (rows : List A)
      → ((a : A) → p a ≡ true → P a → P (f a))
      → All P rows
      → All P (update p f rows)
  All-update p f [] keep hs = tt
  All-update p f (x ∷ xs) keep hs = elim (Bool-cases (p x)) [
    | inl e ↦ rw e (keep x e hs.0, All-update p f xs keep hs.1)
    | inr e ↦ rw e (hs.0, All-update p f xs keep hs.1)
  ]

  pub All-delete : (p : A → Bool) (rows : List A) → All P rows → All P (delete p rows)
  All-delete p [] hs = tt
  All-delete p (x ∷ xs) hs = elim (Bool-cases (p x)) [
    | inl e ↦ rw e (All-delete p xs hs.1)
    | inr e ↦ rw e (hs.0, All-delete p xs hs.1)
  ]

-- A row that passes a test after a save is the saved row, or was there before.
pub any-save :
    {A : Type 0} (q : A → Bool) (key : A → ℕ) (e : A) (rows : List A)
    → any q (save key e rows) ≡ true
    → (q e ≡ true) ⊎ (any q rows ≡ true)
any-save q key e [] h = ground arith
any-save q key e (x ∷ xs) h = ground (arith, any-save q key e xs)

pub any_of_In :
    {A : Type 0} (q : A → Bool) (a : A) (rows : List A) → In a rows → q a ≡ true → any q rows ≡ true
any_of_In q a [] m h = elim m [ ]
any_of_In q a (x ∷ xs) (inl e) h = let hx : q x ≡ true = rw (← e) h in rw hx refl
any_of_In q a (x ∷ xs) (inr m) h = let ih = any_of_In q a xs m h in ground arith

-- Identifiers are unique, as the primary key of a table makes them.
abbrev pub UniqueIds : {A : Type 0} → (A → ℕ) → List A → Type 0
UniqueIds key [] = Unit
UniqueIds key (x ∷ xs) = All (λ y. key y ≢ key x) xs × UniqueIds key xs

module _ {A : Type 0} (key : A → ℕ) where
  pub In-save_self : (e : A) (rows : List A) → In e (save key e rows)
  In-save_self e [] = inl refl
  In-save_self e (x ∷ xs) = elim (Bool-cases (key x == key e)) [
    | inl same ↦ rw same (inl refl)
    | inr other ↦ rw other (inr (In-save_self e xs))
  ]

  -- A save leaves the rows with other keys.
  pub In-save_ne : (e a : A) (rows : List A) → In a rows → key a ≢ key e → In a (save key e rows)
  In-save_ne e a [] m ne = elim m [ ]
  In-save_ne e a (x ∷ xs) m ne = elim (Bool-cases (key x == key e)) [
    | inl same ↦
        rw same (elim m [
          | inl h ↦ absurd (ne (ap key h ∙ eq_of_== (key x) (key e) same))
          | inr t ↦ inr t
        ])
    | inr other ↦ rw other (elim m [ inl h ↦ inl h | inr t ↦ inr (In-save_ne e a xs t ne) ])
  ]

  -- A row of a saved table is the saved row, or an old one.
  pub In-save : (e a : A) (rows : List A) → In a (save key e rows) → (a ≡ e) ⊎ In a rows
  In-save e a [] m = m
  In-save e a (x ∷ xs) m = elim (Bool-cases (key x == key e)) [
    | inl same ↦
        (let m' : In a (e ∷ xs) = rw same at m in elim m' [ inl h ↦ inl h | inr t ↦ inr (inr t) ])
    | inr other ↦
        (let m' : In a (x ∷ save key e xs) = rw other at m in
          elim m' [
            | inl h ↦ inr (inl h)
            | inr t ↦ elim (In-save e a xs t) [ inl u ↦ inl u | inr v ↦ inr (inr v) ]
          ])
  ]

  -- Two rows of a table with one key are one row.
  pub eq_of_key :
      (a b : A) (rows : List A) → UniqueIds key rows → In a rows → In b rows → key a ≡ key b → a ≡ b
  eq_of_key a b [] u ma mb h = elim ma [ ]
  eq_of_key a b (x ∷ xs) u (inl p) (inl q) h = p ∙ sym q
  eq_of_key a b (x ∷ xs) u (inl p) (inr q) h =
      absurd (All-In (λ y. key y ≢ key x) xs u.0 q (sym h ∙ ap key p))
  eq_of_key a b (x ∷ xs) u (inr p) (inl q) h =
      absurd (All-In (λ y. key y ≢ key x) xs u.0 p (h ∙ ap key q))
  eq_of_key a b (x ∷ xs) u (inr p) (inr q) h = eq_of_key a b xs u.1 p q h

  -- With unique identifiers, every row but the one of the saved key stays.
  pub In-save_other :
      (old e a : A) (rows : List A)
      → UniqueIds key rows
      → In old rows
      → key e ≡ key old
      → In a rows
      → a ≢ old
      → In a (save key e rows)
  In-save_other old e a rows u mo k m ne =
      In-save_ne e a rows m (λ h. ne (eq_of_key a old rows u m mo (h ∙ k)))

pub In-of_any :
    {A : Type 0} (q : A → Bool) (rows : List A)
    → any q rows ≡ true
    → (a : A) × In a rows × (q a ≡ true)
In-of_any q [] h = absurd (cc h)
In-of_any q (x ∷ xs) h = elim (Bool-cases (q x)) [
  | inl e ↦ (x, inl refl, e)
  | inr e ↦ let (a, m, qa) = In-of_any q xs (rw e at h) in (a, inr m, qa)
]

-- A row that an update hits is there in its new form.
pub In-update_hit :
    {A : Type 0} (p : A → Bool) (f : A → A) (a : A) (rows : List A)
    → In a rows
    → p a ≡ true
    → In (f a) (update p f rows)
In-update_hit p f a [] m h = elim m [ ]
In-update_hit p f a (x ∷ xs) (inl e) h = let hx : p x ≡ true = rw (← e) h in rw hx (inl (ap f e))
In-update_hit p f a (x ∷ xs) (inr m) h = inr (In-update_hit p f a xs m h)
