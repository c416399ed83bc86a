-- ===== src/System.antt =====
-- The booking and the payment service over their shared tables: the requests that the controllers
-- pass on, one after the other (src/v1/booking/controllers/booking.controller.ts and
-- src/v1/payment/controllers/payment.controller.ts).
pub mod Effect
pub mod Rules
pub mod Bookings
pub mod Payments
pub mod Sound
pub mod Lifecycle
pub mod Private
mod Tests
use hotel_booking_management.Booking.Service.{create, patch_status}
use hotel_booking_management.Booking.Calendar.{IsUnused}
use hotel_booking_management.Booking.Request.{Item}
use hotel_booking_management.Base.Exec.{Exec}
use hotel_booking_management.Payment.Service.{
  Manager, PayState, create_payment_intent, handle_stripe_webhook, confirm_cash_payment, by_intent,
  EventType, payment_failed,
}
use hotel_booking_management.Base.{String, List, ◌∷◌, All, ℕ, ◌≢◌, In, Option, ◌≡◌, true, []}
use hotel_booking_management.Base.Table.{Orm}
use hotel_booking_management.Entities.{
  Surroundings, StayDb, AuthenticatedUser, BookingStatus, Payment, Currency, PaymentStatus,
}

-- A request, with what surrounds it. Stripe answers a new intent as in `create_payment_intent`.
pub data Request : Type 0 where
  book : Surroundings → String → List Item → AuthenticatedUser → Request
  patch : ℕ → BookingStatus → AuthenticatedUser → Request
  initiate :
      Surroundings → (ℕ → Currency → Option (String × String)) → ℕ → AuthenticatedUser → Request
  webhook : Surroundings → EventType → String → Request
  cash : Surroundings → ℕ → AuthenticatedUser → Request

module _ (orm : Orm) (cache : Manager) where
  -- A handler of the booking service, on the tables.
  abbrev pub on_tables : {A : Type 0} → Exec StayDb A → PayState cache → PayState cache
  on_tables m s = record s { db = (m s.db).1 }

  unfoldable pub handle : Request → PayState cache → PayState cache
  handle (book env reference items user) s = on_tables (create orm env reference items user) s
  handle (patch id status user) s = on_tables (patch_status orm id status user) s
  handle (initiate env stripe id user) s = (create_payment_intent orm cache env stripe id user s).1
  handle (webhook env event intent) s = (handle_stripe_webhook orm cache env event intent s).1
  handle (cash env id user) s = (confirm_cash_payment orm cache env id user s).1

  unfoldable pub run : List Request → PayState cache → PayState cache
  run [] s = s
  run (q ∷ qs) s = run qs (handle q s)

  -- What is asked of the database and of Stripe: a new row has an identifier that is not in use, and
  -- no intent fails that has been paid.
  abbrev pub Admits : Request → PayState cache → Type 0
  Admits (book env reference items user) s =
      IsUnused (env.fresh_id 0) s.db × All (λ b. b.id ≢ env.fresh_id 0) s.db.bookings
  Admits (patch id status user) s = Unit
  Admits (initiate env stripe id user) s = All (λ p. p.id ≢ env.fresh_id 0) s.db.payments
  Admits (webhook env payment_failed intent) s =
      (p : Payment)
      → In p s.db.payments
      → by_intent orm cache env intent p ≡ true
      → p.status ≢ PaymentStatus.completed
  Admits (webhook env _ intent) s = Unit
  Admits (cash env id user) s = All (λ p. p.id ≢ env.fresh_id 0) s.db.payments

  abbrev pub AdmitsAll : List Request → PayState cache → Type 0
  AdmitsAll [] s = Unit
  AdmitsAll (q ∷ qs) s = Admits q s × AdmitsAll qs (handle q s)
