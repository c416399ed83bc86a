-- ===== src/Base/Lists.antt =====
-- Lists over the native numbers: tests, membership by recursion, and predicates on every element.
use Prim.Native.Nat.{ℕ, suc}
use mathlib.Core.Path.{ap, refl, ◌≡◌}
use mathlib.Core.Logic.{◌⊎◌, inl, inr}
use mathlib.Core.Bool.{Bool, false, ◌||◌}
use mathlib.Core.List.{map, List, [], ◌∷◌, ◌++◌}
use native.Mathlib.Omega.{arith}
use hotel_booking_management.Base.Tests.{if◌then◌else◌}

module _ {ℓ} {A : Type ℓ} where
  abbrev pub length : List A → ℕ
  length [] = 0
  length (x ∷ xs) = suc (length xs)

  -- The rows that pass a test.
  abbrev pub select : (A → Bool) → List A → List A
  select p [] = []
  select p (x ∷ xs) = let rest = select p xs in if p x then x ∷ rest else rest

  abbrev pub any : (A → Bool) → List A → Bool
  any p [] = false
  any p (x ∷ xs) = p x || any p xs

module _ {ℓ κ} {A : Type ℓ} where
  abbrev pub All : (A → Type κ) → List A → Type κ
  All P [] = Unit
  All P (x ∷ xs) = P x × All P xs

  pub All-append : (P : A → Type κ) (xs ys : List A) → All P xs → All P ys → All P (xs ++ ys)
  All-append P [] ys hx hy = hy
  All-append P (x ∷ xs) ys hx hy = (hx.0, All-append P xs ys hx.1 hy)

abbrev pub In : {A : Type 0} → A → List A → Type 0
In a [] = ⊥
In a (x ∷ xs) = (a ≡ x) ⊎ In a xs

module _ {κ} {A : Type 0} (P : A → Type κ) where
  pub All-In : (xs : List A) {a : A} → All P xs → In a xs → P a
  All-In [] h m = elim m [ ]
  All-In (x ∷ xs) h (inl e) = rw e h.0
  All-In (x ∷ xs) h (inr m) = All-In xs h.1 m

-- A property of every element passes through an implication.
pub All-imp {κ μ} :
    {A : Type 0} (P : A → Type κ) (Q : A → Type μ) (xs : List A)
    → ((a : A) → P a → Q a)
    → All P xs
    → All Q xs
All-imp P Q [] f h = tt
All-imp P Q (x ∷ xs) f h = (f x h.0, All-imp P Q xs f h.1)

pub any-false :
    {A : Type 0} (p : A → Bool) (xs : List A) → any p xs ≡ false → All (λ a. p a ≡ false) xs
any-false p [] h = tt
any-false p (x ∷ xs) h = ground (arith, any-false p xs)

pub any-append :
    {A : Type 0} (p : A → Bool) (xs ys : List A) → any p (xs ++ ys) ≡ (any p xs || any p ys)
any-append p [] ys = refl
any-append p (x ∷ xs) ys = ground (arith, any-append p xs ys)

-- Two nested quantifiers over lists change places.
pub All-swap {κ} :
    {A B : Type 0} (R : A → B → Type κ) (xs : List A) (ys : List B)
    → All (λ y. All (λ x. R x y) xs) ys
    → All (λ x. All (λ y. R x y) ys) xs
All-swap R [] ys h = tt
All-swap R (x ∷ xs) ys h = (
  All-imp (λ y. All (λ x. R x y) (x ∷ xs)) (λ y. R x y) ys (λ y t. t.0) h,
  All-swap R xs ys
      (All-imp (λ y. All (λ x. R x y) (x ∷ xs)) (λ y. All (λ x. R x y) xs) ys (λ y t. t.1) h),
)

pub All-intro {κ} : {A : Type 0} (P : A → Type κ) (xs : List A) → ((a : A) → P a) → All P xs
All-intro P [] f = tt
All-intro P (x ∷ xs) f = (f x, All-intro P xs f)

pub In-All {κ} : {A : Type 0} {P : A → Type κ} (xs : List A) → ((a : A) → In a xs → P a) → All P xs
In-All [] f = tt
In-All (x ∷ xs) f = (f x (inl refl), In-All xs (λ a m. f a (inr m)))

pub In-append_right : {A : Type 0} (a : A) (xs ys : List A) → In a ys → In a (xs ++ ys)
In-append_right a [] ys m = m
In-append_right a (x ∷ xs) ys m = inr (In-append_right a xs ys m)

pub In-append_left : {A : Type 0} (a : A) (xs ys : List A) → In a xs → In a (xs ++ ys)
In-append_left a [] ys m = elim m [ ]
In-append_left a (x ∷ xs) ys (inl e) = inl e
In-append_left a (x ∷ xs) ys (inr m) = inr (In-append_left a xs ys m)

pub In-map : {A B : Type 0} (f : A → B) (a : A) (xs : List A) → In a xs → In (f a) (map f xs)
In-map f a [] m = elim m [ ]
In-map f a (x ∷ xs) (inl e) = inl (ap f e)
In-map f a (x ∷ xs) (inr m) = inr (In-map f a xs m)
