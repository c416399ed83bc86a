-- ===== src/System/Rules.antt =====
-- What holds of the tables, and how a confirmation and a payment keep it.
use hotel_booking_management.Base.Keys.{any-update}
use hotel_booking_management.Booking.Overlap.{NoOverlap, NoOverlap-mono}
use hotel_booking_management.Payment.Paid.{IsPaid}
use hotel_booking_management.Booking.Calendar.{Calendar}
use hotel_booking_management.Payment.Intents.{
  is_pending_for, pending_count, none_pending, pending_count-append,
}
use hotel_booking_management.Base.Table.{UniqueIds, save, update}
use hotel_booking_management.Payment.Service.{intent_payment}
use hotel_booking_management.Entities.{
  StayDb, Payment, Booking, BookingStatus, Surroundings, BookingRoom, AuthenticatedUser,
}
use hotel_booking_management.Booking.Request.{is_live, not_terminal}
use hotel_booking_management.Base.{
  ℕ, Bool, List, All, ◌≡◌, String, true, false, ◌≤◌, ◌++◌, arith, ◌∷◌, Bool-cases, [], ◌==◌,
  All-intro, inl, inr, eq_of_==, ◌&&◌, All-imp, refl,
}

-- What holds of the tables: identifiers are unique, no two live stays share a room for a night, every
-- confirmed booking has been paid, and no booking has two pending payments.
pub record IsSound (db : StayDb) : Type 0 where
  pub booking_ids : UniqueIds (λ (b : Booking). b.id) db.bookings
  pub payment_ids : UniqueIds (λ (p : Payment). p.id) db.payments
  pub calendar : Calendar db
  pub paid : IsPaid db
  pub pending : (i : ℕ) → pending_count i db.payments ≤ 1

abbrev pub booking_id : Booking → ℕ
booking_id b = b.id

abbrev pub payment_id : Payment → ℕ
payment_id p = p.id

abbrev pub confirm : Booking → Booking
confirm b = record b { status = BookingStatus.confirmed }

-- Confirming bookings that are live makes no stay overlap.
pub confirm-Calendar :
    (p : Booking → Bool) (bookings : List Booking) (stays : List BookingRoom)
    → All (λ b. p b ≡ true → not_terminal b.status ≡ true) bookings
    → NoOverlap bookings stays
    → NoOverlap (update p confirm bookings) stays
unfolding is_live
confirm-Calendar p bookings stays live h =
    NoOverlap-mono bookings (update p confirm bookings) stays
      (All-intro (λ br. is_live (update p confirm bookings) br ≡ true → is_live bookings br ≡ true)
        stays
        (λ br.
          any-update (λ b. b.id == br.booking_id && not_terminal b.status) p confirm bookings
            (All-imp (λ b. p b ≡ true → not_terminal b.status ≡ true)
              (λ b.
                p b ≡ true
                → (b.id == br.booking_id && not_terminal BookingStatus.confirmed) ≡ true
                → (b.id == br.booking_id && not_terminal b.status) ≡ true)
              bookings (λ b l e q. (let n = l e in ground arith)) live)))
      h

pub pending-save :
    (i : ℕ) (e : Payment) (payments : List Payment)
    → is_pending_for i e ≡ false
    → pending_count i (save payment_id e payments) ≤ pending_count i payments
pending-save i e [] h = rw h (omega arith)
pending-save i e (p ∷ ps) h = elim (Bool-cases (p.id == e.id)) [
  | inl same ↦ rw (same, h) (omega arith)
  | inr other ↦ rw other (omega (arith, pending-save i e ps h))
]

pub pending-append :
    (i : ℕ) (e : Payment) (payments : List Payment)
    → is_pending_for i e ≡ false
    → pending_count i (payments ++ e ∷ []) ≤ pending_count i payments
pending-append i e [] h = rw h (omega arith)
pending-append i e (p ∷ ps) h = omega (arith, pending-append i e ps h)

-- The first pending payment of a booking.
pub pending-ask :
    (env : Surroundings) (b : Booking) (user : AuthenticatedUser) (intent : String)
    (payments : List Payment) (i : ℕ)
    → All (λ p. is_pending_for b.id p ≡ false) payments
    → pending_count i payments ≤ 1
    → pending_count i (payments ++ intent_payment env b user intent ∷ []) ≤ 1
unfolding intent_payment
pending-ask env b user intent payments i none_there h = elim (Bool-cases (b.id == i)) [
  | inl same ↦
      let zero_now : pending_count i payments ≡ 0 =
        rw (eq_of_== b.id i same) at (none_pending b.id payments none_there) in
      rw (pending_count-append, zero_now) (ground arith)
  | inr other ↦
      let new_row : is_pending_for i (intent_payment env b user intent) ≡ false = rw other refl in
      omega (arith, pending-append i (intent_payment env b user intent) payments new_row)
]
