-- ===== src/Payment/Intents.antt =====
-- What `createPaymentIntent` requires and writes, and who sees which payments.
use hotel_booking_management.Cache.{invalidate_lists}
use hotel_booking_management.Base.Exec.{Result, ok, err}
use hotel_booking_management.Payment.Keys.{same_key, registry}
use hotel_booking_management.Payment.Service.{
  Manager, create_payment_intent, PayState, intent_payment,
}
use hotel_booking_management.Entities.{
  Payment, Surroundings, Currency, same_payment_status, AuthenticatedUser, PaymentStatus, Booking,
  is_admin, BookingStatus, same_booking_status,
}
use hotel_booking_management.Base.Table.{Orm}
use hotel_booking_management.Base.{
  ℕ, List, Bool, ◌∷◌, ◌++◌, All, ◌==◌, if◌then◌else◌, ◌≡◌, ◌&&◌, ◌+◌, false, Option, String, arith,
  [], Option-cases, ◌≤◌, refl, some, In, inl, Bool-cases, true, inr, eq_of_==, ◌||◌, not,
}

abbrev pub is_pending_for : ℕ → Payment → Bool
is_pending_for booking_id p =
    p.booking_id == booking_id && same_payment_status p.status PaymentStatus.pending

abbrev pub pending_count : ℕ → List Payment → ℕ
pending_count i [] = 0
pending_count i (p ∷ ps) = (if is_pending_for i p then 1 else 0) + pending_count i ps

pub pending_count-append :
    (i : ℕ) (xs ys : List Payment)
    → pending_count i (xs ++ ys) ≡ pending_count i xs + pending_count i ys
pending_count-append i [] ys = omega arith
pending_count-append i (x ∷ xs) ys = omega (arith, pending_count-append i xs ys)

pub none_pending :
    (i : ℕ) (ps : List Payment) → All (λ p. is_pending_for i p ≡ false) ps → pending_count i ps ≡ 0
none_pending i [] h = refl
none_pending i (p ∷ ps) h = rw (h.0, none_pending i ps h.1) refl

module _ (orm : Orm) (cache : Manager) (env : Surroundings) where
  -- A new intent is for a PENDING booking of the caller, or any for an admin, without a pending
  -- payment; Stripe is asked for the booking's total, the row holds the same, and the cached lists
  -- are invalidated. Otherwise nothing changes.
  abbrev pub Initiated :
      (ℕ → Currency → Option (String × String))
      → ℕ
      → AuthenticatedUser
      → PayState cache
      → Result (String × ℕ) × PayState cache
      → Type 0
  Initiated stripe booking_id user s (ok answer, s') =
      (b : Booking) × (intent : String × String) × In b s.db.bookings
      × (b.id ≡ booking_id)
      × ((is_admin user || b.user_id == user.id) ≡ true)
      × (b.status ≡ BookingStatus.pending)
      × All (λ p. is_pending_for b.id p ≡ false) s.db.payments
      × (stripe b.total_price b.currency ≡ some intent)
      × (answer ≡ (intent.1, env.fresh_id 0))
      × (s' ≡ record s {
        db = record (s.db) { payments = s.db.payments ++ intent_payment env b user intent.0 ∷ [] };
        store = invalidate_lists same_key cache registry env.now s.store;
      })
  Initiated stripe booking_id user s (err e, s') = s' ≡ s

  -- For every database that answers queries as documented: `createPaymentIntent` either throws
  -- and changes nothing, or the booking is PENDING, is the caller's own or the caller is an
  -- admin, has no pending payment, Stripe was asked for the booking's total in its currency, and
  -- the one change is a pending payment row of that total and the invalidation of the cached
  -- lists.
  pub create_payment_intent-Initiated :
      (stripe : ℕ → Currency → Option (String × String)) (booking_id : ℕ) (user : AuthenticatedUser)
      (s : PayState cache)
      → Initiated stripe booking_id user s
          (create_payment_intent orm cache env stripe booking_id user s)
  unfolding create_payment_intent
  create_payment_intent-Initiated stripe booking_id user s =
      elim (Option-cases (orm.find_one Booking (λ x. x.id == booking_id) s.db.bookings)) [
        | inl e ↦ rw e refl
        | inr (b, e) ↦ rw e (elim (Bool-cases (not (is_admin user) && not (b.user_id == user.id))) [
          | inl stranger ↦ rw stranger refl
          | inr allowed ↦
              rw allowed (elim (Bool-cases (same_booking_status b.status BookingStatus.pending)) [
                | inr other ↦ rw other refl
                | inl pending ↦
                    rw pending
                      (elim (Option-cases
                        (orm.find_one Payment (is_pending_for b.id) s.db.payments)) [
                          | inr (p, pe) ↦ rw pe refl
                          | inl none_there ↦
                              rw none_there (elim (Option-cases (stripe b.total_price b.currency)) [
                                | inl refused ↦ rw refused refl
                                | inr (intent, ie) ↦ rw ie (
                                    let found =
                                      orm.find_one_sound Booking (λ x. x.id == booking_id)
                                        s.db.bookings b e in
                                    (
                                      b,
                                      intent,
                                      found.0,
                                      eq_of_== b.id booking_id found.1,
                                      ground arith,
                                      ground arith,
                                      orm.find_one_complete Payment (is_pending_for b.id)
                                          s.db.payments none_there,
                                      ie,
                                      refl,
                                      refl,
                                    ))
                              ])
                        ])
              ])
        ])
      ]

  Initiated-pending_count :
      (stripe : ℕ → Currency → Option (String × String)) (booking_id : ℕ) (user : AuthenticatedUser)
      (s : PayState cache) (r : Result (String × ℕ) × PayState cache)
      → Initiated stripe booking_id user s r
      → ((i : ℕ) → pending_count i s.db.payments ≤ 1)
      → (i : ℕ) → pending_count i r.1.db.payments ≤ 1
  Initiated-pending_count stripe booking_id user s (err e, s') h c i = rw h (c i)
  Initiated-pending_count stripe booking_id user s (ok answer, s')
        (b, intent, m, bi, own, st, none_there, ie, ae, e) c i =
      rw (e, pending_count-append)
        (elim (Bool-cases (b.id == i)) [
          | inl same ↦
              let zero_now : pending_count i s.db.payments ≡ 0 =
                rw (eq_of_== b.id i same) at (none_pending b.id s.db.payments none_there) in
              unfold intent_payment in ground (arith, zero_now)
          | inr other ↦ unfold intent_payment in ground (arith, c i)
        ])

  -- If no booking has two pending payments, none has after `createPaymentIntent`.
  pub create_payment_intent-pending_count :
      (stripe : ℕ → Currency → Option (String × String)) (booking_id : ℕ) (user : AuthenticatedUser)
      (s : PayState cache)
      → ((i : ℕ) → pending_count i s.db.payments ≤ 1)
      → (i : ℕ)
      → pending_count i (create_payment_intent orm cache env stripe booking_id user s).1.db.payments
        ≤ 1
  create_payment_intent-pending_count stripe booking_id user s =
      Initiated-pending_count stripe booking_id user s
        (create_payment_intent orm cache env stripe booking_id user s)
        (create_payment_intent-Initiated stripe booking_id user s)
