-- ===== src/Payment/Service.antt =====
-- The operations on payments (src/v1/payment/services/payment.service.ts).
use hotel_booking_management.Base.Exec.{
  Exec, modify, pure, ok, ◌>>=◌, gets, or_throw, ◌>>◌, not_found, throw_if, forbidden, bad_request,
  internal,
}
use hotel_booking_management.Base.Table.{Orm, save, update}
use hotel_booking_management.Base.{
  Bool, Option, List, ℕ, All, ◌≡◌, true, if◌then◌else◌, none, String, some, ◌==◌, ◌-◌, ◌&&◌, ◌*◌,
  [], ◌||◌, not, is_some, ◌++◌, ◌∷◌,
}
use hotel_booking_management.Cache.{CacheManager, invalidate_lists, cache_list, listing, keys}
use hotel_booking_management.Entities.{
  Payment, StayDb, AuthenticatedUser, Surroundings, is_admin, Currency, same_intent, Booking,
  stripe_intent, same_payment_status, same_booking_status, BookingStatus, PaymentStatus,
  cash_intent,
}
use hotel_booking_management.Payment.Keys.{
  SortField, PaymentKey, PaymentFilter, sort_field, payment_list_key, same_key, registry,
}

-- What Stripe tells of a payment intent.
pub data EventType : Type 0 where
  payment_succeeded payment_failed other_event : EventType

-- The rows that a list query selects; the database orders and pages them.
pub record PaymentQuery : Type 0 where
  pub field : SortField
  pub ascending : Bool
  pub page : Option (ℕ × ℕ)

-- `getManyAndCount`: a page of the rows that meet the condition, and their number.
pub record ListQuery : Type 0 where
  pub run : (Payment → Bool) → PaymentQuery → List Payment → List Payment × ℕ
  pub run_sound :
      (p : Payment → Bool) (q : PaymentQuery) (rows : List Payment)
      → All (λ x. p x ≡ true) (run p q rows).0

abbrev pub Manager : Type 1
Manager = CacheManager PaymentKey (List Payment × ℕ)

module _ (cache : Manager) where
  -- The state of the service: the tables and the cache.
  pub record PayState : Type 0 where
    pub db : StayDb
    pub store : cache.Store

-- The condition that the list query builds from the caller and the filter.
unfoldable pub list_condition : PaymentFilter → AuthenticatedUser → Payment → Bool
list_condition filter user p =
    (if is_admin user
      then elim filter.user_id [ none ↦ true | some u ↦ p.user_id == u ]
      else p.user_id == user.id)
    && (elim filter.payment_status [ none ↦ true | some s ↦ same_payment_status p.status s ]
        && elim filter.booking_id [ none ↦ true | some b ↦ p.booking_id == b ])

unfoldable pub list_query : PaymentFilter → PaymentQuery
unfolding sort_field
list_query filter = record {
  field = sort_field filter.sort_by;
  ascending = filter.ascending;
  page = if filter.get_all then none else some ((filter.page - 1) * filter.limit, filter.limit);
}

-- The row that `createPaymentIntent` adds.
unfoldable pub intent_payment : Surroundings → Booking → AuthenticatedUser → String → Payment
intent_payment env booking user intent = record {
  id = env.fresh_id 0;
  booking_id = booking.id;
  user_id = user.id;
  payment_intent_id = stripe_intent intent;
  amount = booking.total_price;
  currency = booking.currency;
  status = PaymentStatus.pending;
}

-- The row that `confirmCashPayment` adds.
unfoldable pub cash_payment : Surroundings → Booking → Payment
cash_payment env booking = record {
  id = env.fresh_id 0;
  booking_id = booking.id;
  user_id = booking.user_id;
  payment_intent_id = cash_intent booking.id env.now;
  amount = booking.total_price;
  currency = booking.currency;
  status = PaymentStatus.completed;
}

module _ (orm : Orm) (cache : Manager) (env : Surroundings) where
  abbrev Pay : Type 0 → Type 0
  Pay A = Exec (PayState cache) A

  -- A statement on the tables.
  abbrev pub write : (StayDb → StayDb) → Pay (Unit {0})
  write f = modify (λ s. record s { db = f s.db })

  unfoldable pub invalidate_payment_lists : Pay (Unit {0})
  invalidate_payment_lists =
      modify (λ s. record s { store = invalidate_lists same_key cache registry env.now s.store })

  -- `stripe` is what the Stripe service answers to an amount and a currency: the identifier and the
  -- client secret of the new intent, or nothing where it throws. The total, in hundredths, is the
  -- amount that `toStripeAmount` computes.
  unfoldable pub create_payment_intent :
      (ℕ → Currency → Option (String × String)) → ℕ → AuthenticatedUser → Pay (String × ℕ)
  unfolding invalidate_payment_lists intent_payment
  create_payment_intent stripe booking_id user = do
    found ← gets (λ s. orm.find_one Booking (λ b. b.id == booking_id) s.db.bookings)
    booking ← or_throw found (not_found "Booking not found")
    throw_if (not (is_admin user) && not (booking.user_id == user.id))
        (forbidden "You are not allowed to pay for this booking")
    throw_if (not (same_booking_status booking.status BookingStatus.pending))
        (bad_request "Payment can only be initiated for PENDING bookings")
    existing ← gets (λ s.
        orm.find_one Payment
          (λ p. p.booking_id == booking.id && same_payment_status p.status PaymentStatus.pending)
          s.db.payments)
    throw_if (is_some existing) (bad_request "A pending payment already exists for this booking")
    intent ←
        or_throw (stripe booking.total_price booking.currency)
          (internal "Failed to initialise payment")
    let payment = intent_payment env booking user intent.0
    write (λ db. record db { payments = db.payments ++ payment ∷ [] })
    invalidate_payment_lists
    pure (intent.1, payment.id)

  abbrev pub by_intent : String → Payment → Bool
  by_intent intent p = same_intent p.payment_intent_id (stripe_intent intent)

  unfoldable pub save_payment : Payment → Pay (Unit {0})
  save_payment p = write (λ db. record db { payments = save (λ (x : Payment). x.id) p db.payments })

  -- `bookingRepository.update({ id, status: PENDING }, { status: CONFIRMED })`
  unfoldable pub confirm_pending : ℕ → StayDb → StayDb
  confirm_pending id db = record db {
    bookings =
        update (λ (b : Booking). b.id == id && same_booking_status b.status BookingStatus.pending)
          (λ b. record b { status = BookingStatus.confirmed }) db.bookings;
  }

  unfoldable pub handle_payment_success : String → Pay (Unit {0})
  unfolding save_payment invalidate_payment_lists confirm_pending
  handle_payment_success intent = do
    found ← gets (λ s. orm.find_one Payment (by_intent intent) s.db.payments)
    elim found [
      | none ↦ pure tt
      | some payment ↦
          if same_payment_status payment.status PaymentStatus.completed then pure tt else do
            save_payment (record payment { status = PaymentStatus.completed })
            invalidate_payment_lists
            write (confirm_pending payment.booking_id)
    ]

  unfoldable pub handle_payment_failure : String → Pay (Unit {0})
  unfolding save_payment invalidate_payment_lists
  handle_payment_failure intent = do
    found ← gets (λ s. orm.find_one Payment (by_intent intent) s.db.payments)
    elim found [
      | none ↦ pure tt
      | some payment ↦ do
        save_payment (record payment { status = PaymentStatus.failed })
        invalidate_payment_lists
    ]

  unfoldable pub handle_stripe_webhook : EventType → String → Pay (Unit {0})
  unfolding handle_payment_success handle_payment_failure
  handle_stripe_webhook payment_succeeded intent = handle_payment_success intent
  handle_stripe_webhook payment_failed intent = handle_payment_failure intent
  handle_stripe_webhook other_event intent = pure tt

  unfoldable pub confirm_cash_payment : ℕ → AuthenticatedUser → Pay Payment
  unfolding invalidate_payment_lists cash_payment
  confirm_cash_payment booking_id user = do
    found ← gets (λ s. orm.find_one Booking (λ b. b.id == booking_id) s.db.bookings)
    booking ← or_throw found (not_found "Booking not found")
    throw_if (not (same_booking_status booking.status BookingStatus.pending))
        (bad_request "Cash payment can only be recorded for PENDING bookings")
    let payment = cash_payment env booking
    write (λ db. record db { payments = db.payments ++ payment ∷ [] })
    invalidate_payment_lists
    write (λ db. record db {
      bookings =
          update (λ (b : Booking). b.id == booking.id)
            (λ b. record b { status = BookingStatus.confirmed }) db.bookings;
    })
    pure payment

  -- A key of a list never holds the registry's keys; the last case is not reached.
  unfoldable pub find_all :
      ListQuery
      → ℕ
      → (PaymentFilter → String)
      → PaymentFilter
      → AuthenticatedUser
      → Pay (List Payment × ℕ)
  unfolding payment_list_key list_condition list_query
  find_all query ttl stable filter user s =
      let key = payment_list_key stable filter user in
      let computed = query.run (list_condition filter user) (list_query filter) s.db.payments in
      elim (cache.get env.now key s.store) [
        | none ↦ (
          ok computed,
          record s { store = cache_list same_key cache registry env.now ttl key computed s.store },
        )
        | some c ↦ elim c [ listing result ↦ (ok result, s) | keys ks ↦ (ok computed, s) ]
      ]

  unfoldable pub find_one_payment : ℕ → AuthenticatedUser → Pay Payment
  find_one_payment id user = do
    found ← gets (λ s.
        orm.find_one Payment (λ p. p.id == id && (is_admin user || p.user_id == user.id))
          s.db.payments)
    or_throw found (not_found "Payment not found")
