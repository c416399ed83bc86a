-- ===== src/Payment/Paid.antt =====
-- The completed payments of bookings that are confirmed, or further.
use hotel_booking_management.Booking.Creation.{Created, create-Created}
use hotel_booking_management.Base.Exec.{Result, err, ok}
use hotel_booking_management.Booking.Request.{Item, PreparedItem}
use hotel_booking_management.Booking.Statuses.{
  Change, cancel_pending, cancel_confirmed, Patched, check_in, check_out, bookings-sync_rooms,
  patch_status-Patched,
}
use hotel_booking_management.Booking.Service.{sync_rooms, patch_status, create, new_booking}
use hotel_booking_management.Base.Table.{
  Orm, UniqueIds, save, In-of_any, eq_of_key, All-save, any_of_In, In-save_self, In-save_ne,
}
use hotel_booking_management.Base.{
  Bool, List, true, All, ℕ, false, ◌==◌, ◌≡◌, ◌++◌, String, ◌&&◌, any, ◌∷◌, In, refl, [],
  any-append, Bool-cases, inl, eq_of_==, ◌∙◌, All-append, All-In, inr, ne_of_==,
}
use hotel_booking_management.Entities.{
  BookingStatus, Booking, StayDb, Payment, Surroundings, AuthenticatedUser, same_payment_status,
  PaymentStatus,
}

abbrev pub is_settled : BookingStatus → Bool
is_settled BookingStatus.confirmed = true
is_settled BookingStatus.checked_in = true
is_settled BookingStatus.checked_out = true
is_settled _ = false

abbrev pub pays : Booking → Payment → Bool
pays b p = p.booking_id == b.id && same_payment_status p.status PaymentStatus.completed

abbrev pub HasPaid : List Payment → Booking → Type 0
HasPaid payments b = is_settled b.status ≡ true → any (pays b) payments ≡ true

-- Every confirmed, checked-in or checked-out booking has a completed payment.
abbrev pub IsPaid : StayDb → Type 0
IsPaid db = All (HasPaid db.payments) db.bookings

-- One more payment takes none away.
pub HasPaid-append :
    (payments : List Payment) (p : Payment) (b : Booking)
    → HasPaid payments b
    → HasPaid (payments ++ p ∷ []) b
HasPaid-append payments p b h s = rw (any-append, h s) refl

-- Saving a row that still pays what it paid takes none away.
pub HasPaid-save :
    (payments : List Payment) (old e : Payment) (b : Booking)
    → UniqueIds (λ (p : Payment). p.id) payments
    → In old payments
    → e.id ≡ old.id
    → (pays b old ≡ true → pays b e ≡ true)
    → HasPaid payments b
    → HasPaid (save (λ (p : Payment). p.id) e payments) b
HasPaid-save payments old e b u m k keep h s =
    let (p, mp, paid) = In-of_any (pays b) payments (h s) in
    let key : Payment → ℕ = λ p. p.id in
    elim (Bool-cases (p.id == e.id)) [
      | inl same ↦
          let p_is_old = eq_of_key key p old payments u mp m (eq_of_== p.id e.id same ∙ k) in
          any_of_In (pays b) e (save key e payments) (In-save_self key e payments)
            (keep (rw p_is_old at paid))
      | inr other ↦
          any_of_In (pays b) p (save key e payments)
            (In-save_ne key e p payments mp (λ same. ne_of_== p.id e.id other same)) paid
    ]

-- If every confirmed, checked-in or checked-out booking has a completed payment, every one has
-- after `create`.
pub create-IsPaid :
    (orm : Orm) (env : Surroundings) (reference : String) (items : List Item)
    (user : AuthenticatedUser) (db : StayDb)
    → IsPaid db
    → IsPaid (create orm env reference items user db).1
create-IsPaid orm env reference items user db h =
    go (create orm env reference items user db) (create-Created orm env reference items user db)
  where
    go : (r : Result Booking × StayDb) → Created env reference items user db r → IsPaid r.1
    go (err e, db') c = rw c h
    go (ok answer, db') (ps, _, _, _, e, _, _, _, _) = rw e (
        All-append (HasPaid db.payments) db.bookings (new_booking env reference ps user ∷ []) h
          (unsettled ps, tt))
      where
        unsettled :
            (ps : List PreparedItem) → HasPaid db.payments (new_booking env reference ps user)
        unsettled ps = unfold new_booking in λ s. absurd (cc s)

pub settled_before :
    {admin : Bool} {s t : BookingStatus}
    → Change admin s t
    → is_settled t ≡ true
    → is_settled s ≡ true
settled_before (cancel_pending admin) h = cc
settled_before (cancel_confirmed admin) h = cc
settled_before check_in h = refl
settled_before check_out h = refl

pub payments-sync_rooms :
    (id : ℕ) (t : BookingStatus) (db : StayDb) → (sync_rooms id t db).payments ≡ db.payments
unfolding sync_rooms
payments-sync_rooms id BookingStatus.pending db = refl
payments-sync_rooms id _ db = refl

-- If every confirmed, checked-in or checked-out booking has a completed payment, every one has
-- after `patchStatus`.
pub patch_status-IsPaid :
    (orm : Orm) (id : ℕ) (t : BookingStatus) (user : AuthenticatedUser) (db : StayDb)
    → IsPaid db
    → IsPaid (patch_status orm id t user db).1
patch_status-IsPaid orm id t user db h =
    go (patch_status orm id t user db) (patch_status-Patched orm id t user db)
  where
    go : (r : Result Booking × StayDb) → Patched id t user db r → IsPaid r.1
    go (err e, db') c = rw c h
    go (ok answer, db') (b, m, v, c, e, _, _) =
        rw (e, bookings-sync_rooms, payments-sync_rooms)
          (All-save (HasPaid db.payments) (λ (x : Booking). x.id) (record b { status = t })
            db.bookings (λ s. All-In (HasPaid db.payments) db.bookings h m (settled_before c s)) h)
