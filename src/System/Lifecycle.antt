-- ===== src/System/Lifecycle.antt =====
-- The life of a booking over a run of requests.
use hotel_booking_management.System.Rules.{IsSound}
use hotel_booking_management.System.Sound.{Effect-IsSound}
use hotel_booking_management.Booking.Service.{new_booking}
use hotel_booking_management.Base.Keys.{In-update}
use hotel_booking_management.System.Effect.{
  Effect, nothing, reserve, move, handle-Effect, ask, pay, fail, pay_cash,
}
use hotel_booking_management.System.{run, Request, AdmitsAll, handle}
use hotel_booking_management.Payment.Service.{Manager, PayState}
use hotel_booking_management.Booking.Statuses.{
  Change, cancel_pending, changed, cancel_confirmed, check_in, check_out, bookings-sync_rooms,
}
use hotel_booking_management.Base.{
  Bool, ◌≡◌, In, List, true, ℕ, Bool-cases, inl, ◌==◌, In-append_left, inr, eq_of_==, ◌∷◌, [],
  ne_of_==, ◌&&◌, arith,
}
use hotel_booking_management.Entities.{StayDb, Booking, BookingStatus, same_booking_status}
use hotel_booking_management.Base.Table.{
  Orm, UniqueIds, update, eq_of_key, In-save_self, In-save_ne,
}

-- The statuses that a booking can pass through from one on: it is confirmed, cancelled before the
-- guest has arrived, checked in and checked out.
pub data Leads : BookingStatus → BookingStatus → Type 0 where
  stays : (s : BookingStatus) → Leads s s
  confirmed_next :
      {t : BookingStatus} → Leads BookingStatus.confirmed t → Leads BookingStatus.pending t
  cancelled_pending :
      {t : BookingStatus} → Leads BookingStatus.cancelled t → Leads BookingStatus.pending t
  cancelled_confirmed :
      {t : BookingStatus} → Leads BookingStatus.cancelled t → Leads BookingStatus.confirmed t
  checked_in_next :
      {t : BookingStatus} → Leads BookingStatus.checked_in t → Leads BookingStatus.confirmed t
  checked_out_next :
      {t : BookingStatus} → Leads BookingStatus.checked_out t → Leads BookingStatus.checked_in t

Leads_trans : {s t u : BookingStatus} → Leads s t → Leads t u → Leads s u
Leads_trans (stays s) k = k
Leads_trans (confirmed_next l) k = confirmed_next (Leads_trans l k)
Leads_trans (cancelled_pending l) k = cancelled_pending (Leads_trans l k)
Leads_trans (cancelled_confirmed l) k = cancelled_confirmed (Leads_trans l k)
Leads_trans (checked_in_next l) k = checked_in_next (Leads_trans l k)
Leads_trans (checked_out_next l) k = checked_out_next (Leads_trans l k)

Leads-Change : {admin : Bool} {s t : BookingStatus} → Change admin s t → Leads s t
Leads-Change (cancel_pending admin) = cancelled_pending (stays BookingStatus.cancelled)
Leads-Change (cancel_confirmed admin) = cancelled_confirmed (stays BookingStatus.cancelled)
Leads-Change check_in = checked_in_next (stays BookingStatus.checked_in)
Leads-Change check_out = checked_out_next (stays BookingStatus.checked_out)

Leads-confirmed : (s : BookingStatus) → s ≡ BookingStatus.pending → Leads s BookingStatus.confirmed
Leads-confirmed s e = rw e (confirmed_next (stays BookingStatus.confirmed))

-- The booking is still among the rows, with nothing but its status changed, and that along its life.
abbrev pub Continues : Booking → StayDb → Type 0
Continues b db = (t : BookingStatus) × In (record b { status = t }) db.bookings × Leads b.status t

unmoved : (b : Booking) (db : StayDb) → In b db.bookings → Continues b db
unmoved b db m = (b.status, m, stays b.status)

-- A confirmation leaves every other row, and moves a pending one.
confirm-Continues :
    (p : Booking → Bool) (b : Booking) (bookings : List Booking)
    → (p b ≡ true → b.status ≡ BookingStatus.pending)
    → In b bookings
    → (t : BookingStatus) × In
        (record b { status = t })
        (update p (λ x. record x { status = BookingStatus.confirmed }) bookings)
      × Leads b.status t
confirm-Continues p b bookings pending m =
    let f : Booking → Booking = λ x. record x { status = BookingStatus.confirmed } in
    let there = In-update p f b bookings m in
    elim (Bool-cases (p b)) [
      | inl hit ↦
          let there' : In (f b) (update p f bookings) = rw hit at there in
          (BookingStatus.confirmed, there', Leads-confirmed b.status (pending hit))
      | inr miss ↦
          let there' : In b (update p f bookings) = rw miss at there in
          (b.status, there', stays b.status)
    ]

move-Continues :
    (admin : Bool) (c : Booking) (t : BookingStatus) (b : Booking) (db : StayDb)
    → UniqueIds (λ (x : Booking). x.id) db.bookings
    → In c db.bookings
    → Change admin c.status t
    → In b db.bookings
    → Continues b (changed c t db)
move-Continues admin c t b db u mc ch m =
    let key : Booking → ℕ = λ x. x.id in
    let moved : Booking = record c { status = t } in
    elim (Bool-cases (b.id == c.id)) [
      | inl same ↦
          let e = eq_of_key key b c db.bookings u m mc (eq_of_== b.id c.id same) in
          rw (e, bookings-sync_rooms) (t, In-save_self key moved db.bookings, Leads-Change ch)
      | inr other ↦ rw bookings-sync_rooms (
        b.status,
        In-save_ne key moved b db.bookings m (ne_of_== b.id c.id other),
        stays b.status,
      )
    ]

Effect-Continues :
    (db db' : StayDb) (b : Booking)
    → UniqueIds (λ (x : Booking). x.id) db.bookings
    → In b db.bookings
    → Effect db db'
    → Continues b db'
Effect-Continues db db' b u m (nothing e) = rw e (unmoved b db m)
Effect-Continues db db' b u m (reserve env reference items ps user _ _ _ _ _ e) = rw e (
  b.status,
  In-append_left b db.bookings (new_booking env reference ps user ∷ []) m,
  stays b.status,
)
Effect-Continues db db' b u m (move admin c t mc ch e) =
    rw e (move-Continues admin c t b db u mc ch m)
Effect-Continues db db' b u m (ask env c user intent _ _ _ e) = rw e (b.status, m, stays b.status)
Effect-Continues db db' b u m (pay p _ e) = rw e (
    confirm-Continues
      (λ x. x.id == p.booking_id && same_booking_status x.status BookingStatus.pending) b
      db.bookings (λ h. ground arith) m)
Effect-Continues db db' b u m (fail p _ _ e) = rw e (b.status, m, stays b.status)
Effect-Continues db db' b u m (pay_cash env c mc pending _ e) = rw e (
    confirm-Continues (λ x. x.id == c.id) b db.bookings
      (λ h.
        (let same =
            eq_of_key (λ (x : Booking). x.id) b c db.bookings u m mc (eq_of_== b.id c.id h) in
          rw same pending))
      m)

module _ (orm : Orm) (cache : Manager) where
  -- From sound tables, over every run of admitted requests: no booking is lost, nothing but the status
  -- of a booking ever changes, and its statuses follow one another as in its life: PENDING, then
  -- CONFIRMED, CHECKED_IN and CHECKED_OUT, or CANCELLED from one of the first two.
  pub run-Continues :
      (qs : List Request) (s : PayState cache) (b : Booking)
      → AdmitsAll orm cache qs s
      → IsSound s.db
      → In b s.db.bookings
      → Continues b (run orm cache qs s).db
  unfolding run
  run-Continues [] s b a h m = unmoved b s.db m
  run-Continues (q ∷ qs) s b a h m =
      let s' = handle orm cache q s in
      let effect = handle-Effect orm cache q s a.0 in
      let (t, m', first) = Effect-Continues s.db s'.db b h.booking_ids m effect in
      let (u, m'', rest) =
        run-Continues qs s' (record b { status = t }) a.1 (Effect-IsSound s.db h s'.db effect) m' in
      (u, m'', Leads_trans first rest)
