-- ===== src/System/Effect.antt =====
-- What a request does to the tables, as the steps that the business knows: a step relation that
-- leaves out how the services find, check and cache.
use hotel_booking_management.Booking.Creation.{Created, create-Created, booked}
use hotel_booking_management.Booking.Checks.{IsBookable, Distinct, room_ids}
use hotel_booking_management.Payment.Intents.{
  Initiated, create_payment_intent-Initiated, is_pending_for,
}
use hotel_booking_management.Booking.Service.{create, patch_status}
use hotel_booking_management.Booking.Statuses.{Patched, patch_status-Patched, Change, changed}
use hotel_booking_management.Booking.Calendar.{IsUnused}
use hotel_booking_management.Base.Exec.{Result, err, ok}
use hotel_booking_management.Booking.Request.{Item, PreparedItem}
use hotel_booking_management.System.{handle, Request, patch, Admits, initiate, book, webhook, cash}
use hotel_booking_management.Payment.Service.{
  Manager, PayState, handle_payment_success, handle_payment_failure, confirm_cash_payment,
  handle_stripe_webhook, by_intent, create_payment_intent, intent_payment, cash_payment,
  payment_succeeded, payment_failed, other_event,
}
use hotel_booking_management.Base.Table.{Orm, save, update}
use hotel_booking_management.Entities.{
  Surroundings, StayDb, BookingStatus, AuthenticatedUser, Currency, Booking, Payment, PaymentStatus,
  is_admin, same_payment_status, same_booking_status,
}
use hotel_booking_management.Base.{
  ℕ, ◌≡◌, String, List, Option, Option-cases, All, map, In, ◌≢◌, inl, true, ◌==◌, ap, inr,
  Bool-cases, Bool, arith, false, ◌++◌, ◌∷◌, [], ◌&&◌, refl,
}

-- A step from one state of the tables to the next.
pub data Effect (db db' : StayDb) : Type 0 where
  nothing : db' ≡ db → Effect db db'
  reserve :
      (env : Surroundings) (reference : String) (items : List Item) (ps : List PreparedItem)
      (user : AuthenticatedUser)
      → map (λ (p : PreparedItem). p.item) ps ≡ items
      → All (IsBookable env db) items
      → Distinct (room_ids items)
      → IsUnused (env.fresh_id 0) db
      → All (λ b. b.id ≢ env.fresh_id 0) db.bookings
      → db' ≡ booked env reference ps user db
      → Effect db db'
  move :
      (admin : Bool) (b : Booking) (t : BookingStatus)
      → In b db.bookings
      → Change admin b.status t
      → db' ≡ changed b t db
      → Effect db db'
  ask :
      (env : Surroundings) (b : Booking) (user : AuthenticatedUser) (intent : String)
      → In b db.bookings
      → All (λ p. is_pending_for b.id p ≡ false) db.payments
      → All (λ p. p.id ≢ env.fresh_id 0) db.payments
      → db' ≡ record db { payments = db.payments ++ intent_payment env b user intent ∷ [] }
      → Effect db db'
  pay :
      (p : Payment)
      → In p db.payments
      → db' ≡ record db {
        payments =
            save
              (λ (x : Payment). x.id)
              (record p { status = PaymentStatus.completed })
              db.payments;
        bookings =
            update
              (λ (b : Booking).
                b.id == p.booking_id && same_booking_status b.status BookingStatus.pending)
              (λ b. record b { status = BookingStatus.confirmed })
              db.bookings;
      }
      → Effect db db'
  fail :
      (p : Payment)
      → In p db.payments
      → p.status ≢ PaymentStatus.completed
      → db' ≡ record db {
        payments =
            save (λ (x : Payment). x.id) (record p { status = PaymentStatus.failed }) db.payments;
      }
      → Effect db db'
  pay_cash :
      (env : Surroundings) (b : Booking)
      → In b db.bookings
      → b.status ≡ BookingStatus.pending
      → All (λ p. p.id ≢ env.fresh_id 0) db.payments
      → db' ≡ record db {
        payments = db.payments ++ cash_payment env b ∷ [];
        bookings =
            update
              (λ (x : Booking). x.id == b.id)
              (λ x. record x { status = BookingStatus.confirmed })
              db.bookings;
      }
      → Effect db db'

Created-Effect :
    (env : Surroundings) (reference : String) (items : List Item) (user : AuthenticatedUser)
    (db : StayDb) (r : Result Booking × StayDb)
    → IsUnused (env.fresh_id 0) db
    → All (λ b. b.id ≢ env.fresh_id 0) db.bookings
    → Created env reference items user db r
    → Effect db r.1
Created-Effect env reference items user db (err e, db') unused new c = nothing c
Created-Effect env reference items user db (ok answer, db') unused new
      (ps, m, bookable, d, e, _, _, _, _) =
    reserve env reference items ps user m bookable d unused new e

Patched-Effect :
    (id : ℕ) (t : BookingStatus) (user : AuthenticatedUser) (db : StayDb)
    (r : Result Booking × StayDb)
    → Patched id t user db r
    → Effect db r.1
Patched-Effect id t user db (err e, db') c = nothing c
Patched-Effect id t user db (ok answer, db') (b, m, v, c, e, _, _) = move (is_admin user) b t m c e

module _ (orm : Orm) (cache : Manager) (env : Surroundings) (s : PayState cache) where
  Initiated-Effect :
      (stripe : ℕ → Currency → Option (String × String)) (id : ℕ) (user : AuthenticatedUser)
      (r : Result (String × ℕ) × PayState cache)
      → All (λ p. p.id ≢ env.fresh_id 0) s.db.payments
      → Initiated orm cache env stripe id user s r
      → Effect s.db r.1.db
  Initiated-Effect stripe id user (err e, s') new i = nothing (ap (λ (x : PayState cache). x.db) i)
  Initiated-Effect stripe id user (ok answer, s') new (b, intent, m, _, _, _, none_there, _, _, e) =
      ask env b user intent.0 m none_there new (ap (λ (x : PayState cache). x.db) e)

  success-Effect :
      (intent : String) → Effect s.db (handle_payment_success orm cache env intent s).1.db
  unfolding handle_payment_success
  success-Effect intent =
      elim (Option-cases (orm.find_one Payment (by_intent orm cache env intent) s.db.payments)) [
        | inl e ↦ rw e (nothing refl)
        | inr (p, e) ↦ elim (Bool-cases (same_payment_status p.status PaymentStatus.completed)) [
          | inl done ↦ rw (e, done) (nothing refl)
          | inr open_payment ↦
              let (m, _) =
                orm.find_one_sound Payment (by_intent orm cache env intent) s.db.payments p e in
              rw (e, open_payment) (pay p m refl)
        ]
      ]

  failure-Effect :
      (intent : String)
      → ((p : Payment)
          → In p s.db.payments
          → by_intent orm cache env intent p ≡ true
          → p.status ≢ PaymentStatus.completed)
      → Effect s.db (handle_payment_failure orm cache env intent s).1.db
  unfolding handle_payment_failure
  failure-Effect intent open_payment =
      elim (Option-cases (orm.find_one Payment (by_intent orm cache env intent) s.db.payments)) [
        | inl e ↦ rw e (nothing refl)
        | inr (p, e) ↦
            let (m, found) =
              orm.find_one_sound Payment (by_intent orm cache env intent) s.db.payments p e in
            rw e (fail p m (open_payment p m found) refl)
      ]

  cash-Effect :
      (id : ℕ) (user : AuthenticatedUser)
      → All (λ p. p.id ≢ env.fresh_id 0) s.db.payments
      → Effect s.db (confirm_cash_payment orm cache env id user s).1.db
  unfolding confirm_cash_payment
  cash-Effect id user new =
      elim (Option-cases (orm.find_one Booking (λ b. b.id == id) s.db.bookings)) [
        | inl e ↦ rw e (nothing refl)
        | inr (b, e) ↦ elim (Bool-cases (same_booking_status b.status BookingStatus.pending)) [
          | inr other ↦ rw (e, other) (nothing refl)
          | inl pending ↦
              let (m, _) = orm.find_one_sound Booking (λ b. b.id == id) s.db.bookings b e in
              rw (e, pending) (pay_cash env b m (ground arith) new refl)
        ]
      ]

module _ (orm : Orm) (cache : Manager) where
  -- For every database that answers queries as documented, and every request that is admitted: what
  -- the services do to the tables is one of these steps, with its conditions met, or nothing.
  pub handle-Effect :
      (q : Request) (s : PayState cache)
      → Admits orm cache q s
      → Effect s.db (handle orm cache q s).db
  unfolding handle handle_stripe_webhook
  handle-Effect (book env reference items user) s h =
      Created-Effect env reference items user s.db (create orm env reference items user s.db) h.0
        h.1 (create-Created orm env reference items user s.db)
  handle-Effect (patch id status user) s h =
      Patched-Effect id status user s.db (patch_status orm id status user s.db)
        (patch_status-Patched orm id status user s.db)
  handle-Effect (initiate env stripe id user) s h =
      Initiated-Effect orm cache env s stripe id user
        (create_payment_intent orm cache env stripe id user s) h
        (create_payment_intent-Initiated orm cache env stripe id user s)
  handle-Effect (webhook env payment_succeeded intent) s h = success-Effect orm cache env s intent
  handle-Effect (webhook env payment_failed intent) s h = failure-Effect orm cache env s intent h
  handle-Effect (webhook env other_event intent) s h = nothing refl
  handle-Effect (cash env id user) s h = cash-Effect orm cache env s id user h
