-- ===== src/Payment/Handlers.antt =====
-- What the payment handlers (src/v1/payment/services/payment.service.ts) do to payments and bookings.
use hotel_booking_management.Base.Exec.{ok}
use hotel_booking_management.Payment.Paid.{
  IsPaid, pays, HasPaid, HasPaid-save, is_settled, HasPaid-append,
}
use hotel_booking_management.Payment.Service.{
  Manager, handle_payment_success, confirm_cash_payment, handle_payment_failure, PayState,
  by_intent, cash_payment,
}
use hotel_booking_management.Entities.{
  Payment, Booking, Surroundings, AuthenticatedUser, PaymentStatus, BookingStatus,
  same_payment_status, same_booking_status,
}
use hotel_booking_management.Base.{
  List, Bool, ◌≡◌, String, ℕ, true, any, Option-cases, In, All, ◌==◌, inl, ◌≢◌, inr, Bool-cases,
  All-imp, ◌&&◌, arith, ◌++◌, false, some, ◌∷◌, refl, [], ne_of_==, In-append_right, eq_of_==,
  All-In, ◌∙◌, sym, ==_refl,
}
use hotel_booking_management.Base.Table.{
  Orm, UniqueIds, update, All-update, save, any_of_In, In-save_self, In-update_hit,
}

-- The change that confirms a booking keeps all bookings paid, where its payment is there.
pub confirm-IsPaid :
    (payments : List Payment) (p : Booking → Bool) (bookings : List Booking)
    → ((b : Booking) → p b ≡ true → any (pays b) payments ≡ true)
    → All (HasPaid payments) bookings
    → All
        (HasPaid payments)
        (update p (λ b. record b { status = BookingStatus.confirmed }) bookings)
confirm-IsPaid payments p bookings paid h =
    All-update (HasPaid payments) p (λ b. record b { status = BookingStatus.confirmed }) bookings
      (λ b found was s. paid b found) h

module _ (orm : Orm) (cache : Manager) (env : Surroundings) where
  -- Where the identifiers of payments are unique: if every confirmed, checked-in or checked-out
  -- booking has a completed payment, every one has after a success event of Stripe, the booking
  -- that the event confirms included.
  pub handle_payment_success-IsPaid :
      (intent : String) (s : PayState cache)
      → UniqueIds (λ (p : Payment). p.id) s.db.payments
      → IsPaid s.db
      → IsPaid (handle_payment_success orm cache env intent s).1.db
  unfolding handle_payment_success
  handle_payment_success-IsPaid intent s u h =
      elim (Option-cases (orm.find_one Payment (by_intent orm cache env intent) s.db.payments)) [
        | inl e ↦ rw e h
        | inr (p, e) ↦ elim (Bool-cases (same_payment_status p.status PaymentStatus.completed)) [
          | inl done ↦ rw (e, done) h
          | inr open_payment ↦
              let key : Payment → ℕ = λ x. x.id in
              let paid : Payment = record p { status = PaymentStatus.completed } in
              let m =
                (orm.find_one_sound Payment (by_intent orm cache env intent) s.db.payments p e).0 in
              rw (e, open_payment)
                (confirm-IsPaid (save key paid s.db.payments)
                  (λ b. b.id == p.booking_id && same_booking_status b.status BookingStatus.pending)
                  s.db.bookings
                  (λ b found.
                    any_of_In (pays b) paid (save key paid s.db.payments)
                      (In-save_self key paid s.db.payments) (ground arith))
                  (All-imp (HasPaid s.db.payments) (HasPaid (save key paid s.db.payments))
                    s.db.bookings
                    (λ b. HasPaid-save s.db.payments p paid b u m refl (λ was. ground arith)) h))
        ]
      ]

  -- If every confirmed, checked-in or checked-out booking has a completed payment, every one has
  -- after `confirmCashPayment`, the booking that it confirms included.
  pub confirm_cash_payment-IsPaid :
      (booking_id : ℕ) (user : AuthenticatedUser) (s : PayState cache)
      → IsPaid s.db
      → IsPaid (confirm_cash_payment orm cache env booking_id user s).1.db
  unfolding confirm_cash_payment
  confirm_cash_payment-IsPaid booking_id user s h =
      elim (Option-cases (orm.find_one Booking (λ b. b.id == booking_id) s.db.bookings)) [
        | inl e ↦ rw e h
        | inr (b, e) ↦ elim (Bool-cases (same_booking_status b.status BookingStatus.pending)) [
          | inl pending ↦
              rw (e, pending)
                (let payments = s.db.payments ++ cash_payment env b ∷ [] in
                  confirm-IsPaid payments (λ x. x.id == b.id) s.db.bookings
                    (λ x found.
                      any_of_In (pays x) (cash_payment env b) payments
                        (In-append_right (cash_payment env b) s.db.payments
                          (cash_payment env b ∷ []) (inl refl))
                        (ground arith))
                    (All-imp (HasPaid s.db.payments) (HasPaid payments) s.db.bookings
                      (λ x. HasPaid-append s.db.payments (cash_payment env b) x) h))
          | inr other ↦ rw (e, other) h
        ]
      ]

  -- Where the identifiers of payments are unique and no payment of the intent is completed: if
  -- every confirmed, checked-in or checked-out booking has a completed payment, every one has
  -- after a failure event of Stripe.
  pub handle_payment_failure-IsPaid :
      (intent : String) (s : PayState cache)
      → UniqueIds (λ (p : Payment). p.id) s.db.payments
      → ((p : Payment)
          → In p s.db.payments
          → by_intent orm cache env intent p ≡ true
          → p.status ≢ PaymentStatus.completed)
      → IsPaid s.db
      → IsPaid (handle_payment_failure orm cache env intent s).1.db
  unfolding handle_payment_failure
  handle_payment_failure-IsPaid intent s u open_payment h =
      elim (Option-cases (orm.find_one Payment (by_intent orm cache env intent) s.db.payments)) [
        | inl e ↦ rw e h
        | inr (p, e) ↦
            let failed : Payment = record p { status = PaymentStatus.failed } in
            let found =
              orm.find_one_sound Payment (by_intent orm cache env intent) s.db.payments p e in
            let not_completed = open_payment p found.0 found.1 in
            rw e (
              All-imp (HasPaid s.db.payments)
                (HasPaid (save (λ (x : Payment). x.id) failed s.db.payments)) s.db.bookings
                (λ b. HasPaid-save s.db.payments p failed b u found.0 refl (λ was. ground arith)) h)
      ]

  none_in_rest :
      (b : Booking) (p : Payment) (payments : List Payment)
      → All (λ q. q.id ≢ p.id) payments
      → All (λ q. q.id ≢ p.id → pays b q ≡ false) payments
      → any (pays b) payments ≡ false
  none_in_rest b p [] u h = refl
  none_in_rest b p (q ∷ qs) u h = rw (h.0 u.0) (none_in_rest b p qs u.1 h.1)

  none_pays :
      (b : Booking) (p : Payment) (payments : List Payment)
      → UniqueIds (λ (x : Payment). x.id) payments
      → All (λ q. q.id ≢ p.id → pays b q ≡ false) payments
      → any
          (pays b)
          (save (λ (x : Payment). x.id) (record p { status = PaymentStatus.failed }) payments)
        ≡ false
  none_pays b p [] u h = ground arith
  none_pays b p (q ∷ qs) u h = elim (Bool-cases (q.id == p.id)) [
    | inl same ↦
        let e = eq_of_== q.id p.id same in
        let rest : All (λ y. y.id ≢ p.id) qs =
          All-imp (λ y. y.id ≢ q.id) (λ y. y.id ≢ p.id) qs (λ y ne eq. ne (eq ∙ sym e)) u.0 in
        rw (same, none_in_rest b p qs rest h.1) (ground arith)
    | inr other ↦ rw (other, h.0 (ne_of_== q.id p.id other)) (none_pays b p qs u.1 h.1)
  ]

  -- A failure event that arrives after the success event of the same intent takes the payment of a
  -- confirmed booking away, and leaves the booking as it is: where identifiers are unique and that
  -- payment was the booking's only completed one, the booking is settled and not paid.
  pub late_failure_unpays :
      (intent : String) (s : PayState cache) (b : Booking) (p : Payment)
      → orm.find_one Payment (by_intent orm cache env intent) s.db.payments ≡ some p
      → UniqueIds (λ (x : Payment). x.id) s.db.payments
      → In b s.db.bookings
      → is_settled b.status ≡ true
      → All (λ q. q.id ≢ p.id → pays b q ≡ false) s.db.payments
      → let s' = (handle_payment_failure orm cache env intent s).1 in
        In b s'.db.bookings × (¬ IsPaid s'.db)
  unfolding handle_payment_failure
  late_failure_unpays intent s b p e u m settled only =
      let after =
        save (λ (x : Payment). x.id) (record p { status = PaymentStatus.failed }) s.db.payments in
      rw e (
        m,
        λ h.
            (let paid = All-In (HasPaid after) s.db.bookings h m settled in
              cc (sym (none_pays b p s.db.payments u only) ∙ paid)),
      )

  -- Recording a cash payment asks nothing of the caller: whoever calls it, a PENDING booking that the
  -- query finds is CONFIRMED, and a completed payment of its total is added.
  pub anyone_confirms_by_cash :
      (booking_id : ℕ) (user : AuthenticatedUser) (s : PayState cache) (b : Booking)
      → orm.find_one Booking (λ x. x.id == booking_id) s.db.bookings ≡ some b
      → b.status ≡ BookingStatus.pending
      → let (r, s') = confirm_cash_payment orm cache env booking_id user s in
        (r ≡ ok (cash_payment env b))
        × In (record b { status = BookingStatus.confirmed }) s'.db.bookings
        × (s'.db.payments ≡ s.db.payments ++ cash_payment env b ∷ [])
  unfolding confirm_cash_payment
  anyone_confirms_by_cash booking_id user s b e pending =
      let found = orm.find_one_sound Booking (λ x. x.id == booking_id) s.db.bookings b e in
      let is_pending : same_booking_status b.status BookingStatus.pending ≡ true =
        rw pending refl in
      rw (e, is_pending)
        (
          refl,
          In-update_hit (λ (x : Booking). x.id == b.id)
              (λ x. record x { status = BookingStatus.confirmed }) b s.db.bookings found.0
              (==_refl b.id),
          refl,
        )
