-- ===== src/Payment/Tests.antt =====
-- The payment service at the sample database.
use hotel_booking_management.Payment.Samples.{initiated, cache, paid_stays, stripe}
use hotel_booking_management.Payment.Handlers.{late_failure_unpays}
use hotel_booking_management.Samples.{stays, env, confirmed_booking, customer, paid_confirmed}
use hotel_booking_management.Payment.Paid.{IsPaid}
use hotel_booking_management.Payment.Service.{
  handle_payment_failure, create_payment_intent, by_intent,
}
use hotel_booking_management.Entities.{Payment, PaymentStatus}
use hotel_booking_management.Payment.Intents.{
  pending_count, Initiated, create_payment_intent-Initiated,
}
use hotel_booking_management.Base.Table.{UniqueIds, scan_order}
use hotel_booking_management.Base.{ℕ, arith, In, ◌≤◌, refl, ◌≡◌, true, ◌≢◌, inr, inl, subst}

stays-IsPaid : IsPaid stays
stays-IsPaid = ((λ h. refl), ((λ h. refl), ((λ h. cc h), tt)))

initiated-IsPaid : IsPaid initiated.db
initiated-IsPaid = ((λ h. refl), ((λ h. refl), ((λ h. cc h), tt)))

stays_unique : UniqueIds (λ (p : Payment). p.id) stays.payments
stays_unique = omega arith

initiated_unique : UniqueIds (λ (p : Payment). p.id) initiated.db.payments
initiated_unique = omega arith

open_intent :
    (p : Payment)
    → In p initiated.db.payments
    → by_intent scan_order cache env "pi_c" p ≡ true
    → p.status ≢ PaymentStatus.completed
open_intent p (inl e) h =
    absurd (cc (subst (λ x. by_intent scan_order cache env "pi_c" x ≡ true) e h))
open_intent p (inr (inl e)) h =
    absurd (cc (subst (λ x. by_intent scan_order cache env "pi_c" x ≡ true) e h))
open_intent p (inr (inr (inr x))) h = elim x [ ]
open_intent p (inr (inr (inl e))) h =
    λ c. (let s = subst (λ x. x.status ≡ PaymentStatus.completed) e c in cc s)

late_failure_unpays_example :
    let s = (handle_payment_failure scan_order cache env "pi_b" paid_stays).1 in
    In confirmed_booking s.db.bookings × (¬ IsPaid s.db)
late_failure_unpays_example =
    late_failure_unpays scan_order cache env "pi_b" paid_stays confirmed_booking paid_confirmed refl
      stays_unique (inr (inl refl)) refl ((λ h. refl), ((λ h. absurd (h refl)), tt))

create_payment_intent-Initiated_example :
    Initiated scan_order cache env stripe 12 customer paid_stays
      (create_payment_intent scan_order cache env stripe 12 customer paid_stays)
create_payment_intent-Initiated_example =
    create_payment_intent-Initiated scan_order cache env stripe 12 customer paid_stays

one_pending : (i : ℕ) → pending_count i paid_stays.db.payments ≤ 1
one_pending i = ground arith
