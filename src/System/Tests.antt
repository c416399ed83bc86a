-- ===== src/System/Tests.antt =====
-- Requests at the sample database.
use hotel_booking_management.Cache.{cache_list}
use hotel_booking_management.System.Private.{
  list_payments, run_accesses, access, find_all_private, PaymentAccess,
}
use hotel_booking_management.Payment.Service.{EventType, find_all, list_condition}
use hotel_booking_management.System.Sound.{run-IsSound}
use hotel_booking_management.Entities.{BookingStatus, Payment}
use hotel_booking_management.Base.Table.{scan_order}
use hotel_booking_management.Payment.Samples.{initiated, cache, filter, all_rows, paid_stays}
use hotel_booking_management.Samples.{
  pending_booking, customer, env, item, manager, paid_checked_in, paid_confirmed,
}
use hotel_booking_management.Booking.Service.{patch_status}
use hotel_booking_management.System.Effect.{Effect, handle-Effect}
use hotel_booking_management.System.{handle, Request, run, patch, AdmitsAll, book, webhook}
use hotel_booking_management.Base.{List, arith, refl, inr, ◌∷◌, inl, [], All, ◌≡◌}
use hotel_booking_management.System.Rules.{IsSound}
use hotel_booking_management.Booking.Request.{is_live}
use hotel_booking_management.System.Lifecycle.{Continues, run-Continues}

-- The customer cancels a booking, books again, and Stripe reports a payment.
abbrev requests : List Request
requests =
    patch 11 BookingStatus.cancelled customer
    ∷ book env "BK-BBBBBBBB" (item ∷ []) customer
    ∷ webhook env EventType.payment_succeeded "pi_c"
    ∷ []

initiated-IsSound : IsSound initiated.db
unfolding is_live
initiated-IsSound = record {
  booking_ids = omega arith;
  payment_ids = omega arith;
  calendar = ((refl, (refl, tt)), ((refl, tt), (tt, tt)));
  paid = ((λ h. refl), ((λ h. refl), ((λ h. absurd (cc h)), tt)));
  pending = λ i. ground arith;
}

requests_admitted : AdmitsAll scan_order cache requests initiated
unfolding handle patch_status
requests_admitted = (tt, (((refl, (refl, (refl, tt))), omega arith), (tt, tt)))

handle-Effect_example :
    Effect initiated.db
      (handle scan_order cache (book env "BK-BBBBBBBB" (item ∷ []) customer) initiated).db
handle-Effect_example =
    handle-Effect scan_order cache (book env "BK-BBBBBBBB" (item ∷ []) customer) initiated
      ((refl, (refl, (refl, tt))), omega arith)

run-IsSound_example : IsSound (run scan_order cache requests initiated).db
run-IsSound_example =
    run-IsSound scan_order cache requests initiated requests_admitted initiated-IsSound

run-Continues_example : Continues pending_booking (run scan_order cache requests initiated).db
run-Continues_example =
    run-Continues scan_order cache requests initiated pending_booking requests_admitted
      initiated-IsSound (inr (inr (inl refl)))

-- A manager and the customer list the payments; then the customer's list comes from the cache.
abbrev accesses : List PaymentAccess
accesses = list_payments env filter manager ∷ list_payments env filter customer ∷ []

find_all_private_example :
    All (λ (p : Payment). p.user_id ≡ 7) (paid_checked_in ∷ paid_confirmed ∷ [])
unfolding find_all list_condition run_accesses access cache_list
find_all_private_example =
    find_all_private scan_order cache all_rows 60 (λ f. "filter") accesses env filter customer
      paid_stays (paid_checked_in ∷ paid_confirmed ∷ [], 2) (λ t k. refl) refl refl
