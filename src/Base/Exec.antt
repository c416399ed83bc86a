-- ===== src/Base/Exec.antt =====
-- Request handlers: a NestJS exception or a value, and the database that the handler leaves. What
-- was written before an exception stays written, unless a transaction undoes it.
use Prim.Native.String.{String}
use mathlib.Core.Bool.{Bool, true, false}
use mathlib.Core.Option.{Option, none, some}

-- The exceptions of `@nestjs/common` that the services throw, with the fixed part of their message.
pub data Exception : Type 0 where
  bad_request unauthorized forbidden not_found conflict internal : String → Exception
  -- TypeORM's `QueryFailedError`, where the database refuses a statement
  query_failed : String → Exception

pub data Result {ℓ} (A : Type ℓ) : Type ℓ where
  ok : A → Result A
  err : Exception → Result A

abbrev pub Exec : Type 0 → Type 0 → Type 0
Exec S A = S → Result A × S

module _ {S A : Type 0} where
  abbrev pub pure : A → Exec S A
  pure a s = (ok a, s)

  abbrev pub throw : Exception → Exec S A
  throw e s = (err e, s)

  abbrev pub gets : (S → A) → Exec S A
  gets f s = (ok (f s), s)

  abbrev pub or_throw : Option A → Exception → Exec S A
  or_throw none e = throw e
  or_throw (some a) e = pure a

abbrev pub modify : {S : Type 0} → (S → S) → Exec S (Unit {0})
modify f s = (ok tt, f s)

abbrev pub throw_if : {S : Type 0} → Bool → Exception → Exec S (Unit {0})
throw_if true e s = (err e, s)
throw_if false e s = (ok tt, s)

-- The rest of a handler, after a step that returned or threw.
abbrev pub continue : {S A B : Type 0} → (A → Exec S B) → Result A × S → Result B × S
continue f (ok a, s) = f a s
continue f (err e, s) = (err e, s)

infixl 5 ◌>>=◌ ◌>>◌
abbrev pub ◌>>=◌ : {S A B : Type 0} → Exec S A → (A → Exec S B) → Exec S B
◌>>=◌ m f s = continue f (m s)

abbrev pub ◌>>◌ : {S A B : Type 0} → Exec S A → Exec S B → Exec S B
m >> k = m >>= λ _. k

-- `dataSource.transaction`: an exception undoes what the callback wrote.
abbrev pub transaction : {S A : Type 0} → Exec S A → Exec S A
transaction m s = let (r, s') = m s in elim r [ ok a ↦ (ok a, s') | err e ↦ (err e, s) ]

-- A transaction leaves the state as it was, or as its callback does.
pub transaction_lem :
    {S A : Type 0} (P : S → Type 0) (m : Exec S A) (s : S) → P s → P (m s).1 → P (transaction m s).1
transaction_lem {S} {A} P m s before after = settled (m s) after
  where
    settled :
        (x : Result A × S)
        → P x.1
        → P (elim x.0 as (λ r. Result A × S) [ ok a ↦ (ok a, x.1) | err e ↦ (err e, s) ]).1
    settled (ok a, s') h = h
    settled (err e, s') h = before
