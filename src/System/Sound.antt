-- ===== src/System/Sound.antt =====
-- The tables over a run of requests.
use hotel_booking_management.System.Payments.{
  ask-IsSound, pay-IsSound, fail-IsSound, pay_cash-IsSound,
}
use hotel_booking_management.System.Bookings.{reserve-IsSound, move-IsSound}
use hotel_booking_management.Base.{List, ◌∷◌, []}
use hotel_booking_management.System.{run, Request, AdmitsAll, handle}
use hotel_booking_management.System.Effect.{
  Effect, nothing, reserve, move, ask, handle-Effect, pay, fail, pay_cash,
}
use hotel_booking_management.Payment.Service.{Manager, PayState}
use hotel_booking_management.System.Rules.{IsSound}
use hotel_booking_management.Entities.{StayDb}
use hotel_booking_management.Base.Table.{Orm}

module _ (db : StayDb) (sound : IsSound db) where
  pub Effect-IsSound : (db' : StayDb) → Effect db db' → IsSound db'
  Effect-IsSound db' (nothing e) = rw e sound
  Effect-IsSound db' (reserve env reference items ps user m bookable d unused new e) =
      rw e (reserve-IsSound db sound env reference items ps user m bookable d unused new)
  Effect-IsSound db' (move admin b t m c e) = rw e (move-IsSound db sound admin b t m c)
  Effect-IsSound db' (ask env b user intent m none_there new e) =
      rw e (ask-IsSound db sound env b user intent none_there new)
  Effect-IsSound db' (pay p m e) = rw e (pay-IsSound db sound p m)
  Effect-IsSound db' (fail p m open_payment e) = rw e (fail-IsSound db sound p m open_payment)
  Effect-IsSound db' (pay_cash env b m pending new e) =
      rw e (pay_cash-IsSound db sound env b m pending new)

module _ (orm : Orm) (cache : Manager) where
  -- From sound tables, every run of admitted requests leads to sound tables: identifiers stay unique,
  -- no two live stays share a room for a night, every confirmed, checked-in or checked-out booking has
  -- a completed payment, and no booking has two pending payments.
  pub run-IsSound :
      (qs : List Request) (s : PayState cache)
      → AdmitsAll orm cache qs s
      → IsSound s.db
      → IsSound (run orm cache qs s).db
  unfolding run
  run-IsSound [] s a h = h
  run-IsSound (q ∷ qs) s a h =
      run-IsSound qs (handle orm cache q s) a.1
        (Effect-IsSound s.db h (handle orm cache q s).db (handle-Effect orm cache q s a.0))
