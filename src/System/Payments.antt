-- ===== src/System/Payments.antt =====
-- The steps of payments keep the tables sound.
use hotel_booking_management.Payment.Handlers.{confirm-IsPaid}
use hotel_booking_management.Booking.Request.{not_terminal}
use hotel_booking_management.Payment.Paid.{HasPaid, HasPaid-save, HasPaid-append, pays}
use hotel_booking_management.Payment.Intents.{is_pending_for}
use hotel_booking_management.Base.Keys.{UniqueIds-save, UniqueIds-append, UniqueIds-update}
use hotel_booking_management.Base.Table.{save, update, eq_of_key, any_of_In, In-save_self}
use hotel_booking_management.Base.{
  In, ◌≢◌, ◌≡◌, String, All, All-imp, ◌==◌, ◌++◌, false, ◌&&◌, ◌∷◌, [], arith, Bool, refl,
  All-intro, In-All, true, eq_of_==, In-append_right, inl,
}
use hotel_booking_management.Payment.Service.{intent_payment, cash_payment}
use hotel_booking_management.System.Rules.{
  IsSound, payment_id, confirm, pending-save, pending-ask, booking_id, confirm-Calendar,
  pending-append,
}
use hotel_booking_management.Entities.{
  StayDb, Payment, Surroundings, Booking, PaymentStatus, AuthenticatedUser, BookingStatus,
  same_booking_status,
}

module _ (db : StayDb) (sound : IsSound db) where
  pub ask-IsSound :
      (env : Surroundings) (b : Booking) (user : AuthenticatedUser) (intent : String)
      → All (λ p. is_pending_for b.id p ≡ false) db.payments
      → All (λ p. p.id ≢ env.fresh_id 0) db.payments
      → IsSound (record db { payments = db.payments ++ intent_payment env b user intent ∷ [] })
  unfolding intent_payment
  ask-IsSound env b user intent none_there new = record {
    booking_ids = sound.booking_ids;
    payment_ids =
        UniqueIds-append payment_id (intent_payment env b user intent) db.payments new
          sound.payment_ids;
    calendar = sound.calendar;
    paid =
        All-imp (HasPaid db.payments)
          (HasPaid (db.payments ++ intent_payment env b user intent ∷ [])) db.bookings
          (HasPaid-append db.payments (intent_payment env b user intent)) sound.paid;
    pending = λ i. pending-ask env b user intent db.payments i none_there (sound.pending i);
  }

  pub fail-IsSound :
      (p : Payment)
      → In p db.payments
      → p.status ≢ PaymentStatus.completed
      → let failed = record p { status = PaymentStatus.failed } in
        IsSound (record db { payments = save payment_id failed db.payments })
  fail-IsSound p m open_payment =
      let failed : Payment = record p { status = PaymentStatus.failed } in
      record {
        booking_ids = sound.booking_ids;
        payment_ids = UniqueIds-save payment_id failed db.payments sound.payment_ids;
        calendar = sound.calendar;
        paid =
            All-imp (HasPaid db.payments) (HasPaid (save payment_id failed db.payments)) db.bookings
              (λ b.
                HasPaid-save db.payments p failed b sound.payment_ids m refl (λ was. ground arith))
              sound.paid;
        pending =
            λ i. omega (arith, sound.pending i, pending-save i failed db.payments (ground arith));
      }

  pub pay-IsSound :
      (p : Payment)
      → In p db.payments
      → let paid = record p { status = PaymentStatus.completed } in
        IsSound (record db {
          payments = save payment_id paid db.payments;
          bookings =
              update
                (λ (b : Booking).
                  b.id == p.booking_id && same_booking_status b.status BookingStatus.pending)
                confirm
                db.bookings;
        })
  pay-IsSound p m =
      let paid : Payment = record p { status = PaymentStatus.completed } in
      let hit : Booking → Bool =
        λ b. b.id == p.booking_id && same_booking_status b.status BookingStatus.pending in
      record {
        booking_ids =
            UniqueIds-update booking_id hit confirm (λ b. refl) db.bookings sound.booking_ids;
        payment_ids = UniqueIds-save payment_id paid db.payments sound.payment_ids;
        calendar =
            confirm-Calendar hit db.bookings db.booking_rooms
              (All-intro (λ b. hit b ≡ true → not_terminal b.status ≡ true) db.bookings
                (λ b e. ground arith))
              sound.calendar;
        paid =
            confirm-IsPaid (save payment_id paid db.payments) hit db.bookings
              (λ b found.
                any_of_In (pays b) paid (save payment_id paid db.payments)
                  (In-save_self payment_id paid db.payments) (ground arith))
              (All-imp (HasPaid db.payments) (HasPaid (save payment_id paid db.payments))
                db.bookings
                (λ b.
                  HasPaid-save db.payments p paid b sound.payment_ids m refl (λ was. ground arith))
                sound.paid);
        pending =
            λ i. omega (arith, sound.pending i, pending-save i paid db.payments (ground arith));
      }

  pub pay_cash-IsSound :
      (env : Surroundings) (b : Booking)
      → In b db.bookings
      → b.status ≡ BookingStatus.pending
      → All (λ p. p.id ≢ env.fresh_id 0) db.payments
      → IsSound (record db {
        payments = db.payments ++ cash_payment env b ∷ [];
        bookings = update (λ (x : Booking). x.id == b.id) confirm db.bookings;
      })
  unfolding cash_payment
  pay_cash-IsSound env b m pending new =
      let payments = db.payments ++ cash_payment env b ∷ [] in
      let hit : Booking → Bool = λ x. x.id == b.id in
      record {
        booking_ids =
            UniqueIds-update booking_id hit confirm (λ x. refl) db.bookings sound.booking_ids;
        payment_ids =
            UniqueIds-append payment_id (cash_payment env b) db.payments new sound.payment_ids;
        calendar =
            confirm-Calendar hit db.bookings db.booking_rooms
              (In-All db.bookings (λ x mx e.
                (let same =
                    eq_of_key booking_id x b db.bookings sound.booking_ids mx m
                      (eq_of_== x.id b.id e) in
                  rw (same, pending) refl)))
              sound.calendar;
        paid =
            confirm-IsPaid payments hit db.bookings
              (λ x found.
                any_of_In (pays x) (cash_payment env b) payments
                  (In-append_right (cash_payment env b) db.payments (cash_payment env b ∷ [])
                    (inl refl))
                  (ground arith))
              (All-imp (HasPaid db.payments) (HasPaid payments) db.bookings
                (HasPaid-append db.payments (cash_payment env b)) sound.paid);
        pending = λ i. omega (
          arith,
          sound.pending i,
          pending-append i (cash_payment env b) db.payments (ground arith),
        );
      }
