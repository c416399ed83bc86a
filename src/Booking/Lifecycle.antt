-- ===== src/Booking/Lifecycle.antt =====
-- `patchStatus` (src/v1/booking/services/booking.service.ts) over the life of a booking.
use hotel_booking_management.Booking.Overlap.{NoOverlap-mono}
use hotel_booking_management.Booking.Service.{patch_status, is_visible}
use hotel_booking_management.Booking.Statuses.{
  Patched, Change, patch_status-Patched, bookings-sync_rooms, booking_rooms-sync_rooms,
  Change-not_confirmed, Change-live,
}
use hotel_booking_management.Booking.Calendar.{Calendar}
use hotel_booking_management.Base.Exec.{Result, err, ok}
use hotel_booking_management.Booking.Request.{is_live, not_terminal}
use hotel_booking_management.Entities.{
  BookingStatus, AuthenticatedUser, StayDb, Booking, BookingRoom, is_admin,
}
use hotel_booking_management.Base.Table.{
  Orm, UniqueIds, save, In-save, any-save, any_of_In, In-save_other,
}
use hotel_booking_management.Base.{
  ℕ, In, ◌≡◌, false, ◌⊎◌, true, inl, Bool, sym, ◌==◌, All-intro, ◌∙◌, ap, ◌&&◌, inr, arith, refl,
}

module _ (id : ℕ) (t : BookingStatus) (user : AuthenticatedUser) (db : StayDb) where
  Patched-keeps :
      (a : Booking) (r : Result Booking × StayDb)
      → UniqueIds (λ (b : Booking). b.id) db.bookings
      → In a db.bookings
      → (is_visible id user a ≡ false) ⊎ (not_terminal a.status ≡ false)
      → Patched id t user db r
      → In a r.1.bookings
  Patched-keeps a (err e, db') u m k p = rw p m
  Patched-keeps a (ok answer, db') u m k (b, mb, v, c, e, _, _) =
      rw (e, bookings-sync_rooms)
        (In-save_other (λ (x : Booking). x.id) b (record b { status = t }) a db.bookings u mb refl m
          (λ same. not_changed same k))
    where
      not_changed : a ≡ b → (is_visible id user a ≡ false) ⊎ (not_terminal a.status ≡ false) → ⊥
      not_changed same (inl hidden) =
          let h : is_visible id user b ≡ false = rw same at hidden in cc (sym v ∙ h)
      not_changed same (inr ended) =
          let h : not_terminal b.status ≡ false = rw same at ended in cc (sym (Change-live c) ∙ h)

  Patched-never_confirms :
      (a : Booking) (r : Result Booking × StayDb)
      → Patched id t user db r
      → In a r.1.bookings
      → a.status ≡ BookingStatus.confirmed
      → In a db.bookings
  Patched-never_confirms a (err e, db') p m c = rw p at m
  Patched-never_confirms a (ok answer, db') (b, mb, v, ch, e, _, _) m c =
      let m' : In a (save (λ (x : Booking). x.id) (record b { status = t }) db.bookings) =
        rw (e, bookings-sync_rooms) at m in
      elim (In-save (λ (x : Booking). x.id) (record b { status = t }) a db.bookings m') [
        | inl same ↦
            absurd (Change-not_confirmed ch (sym (ap (λ (x : Booking). x.status) same) ∙ c))
        | inr old ↦ old
      ]

  Patched-live :
      (b : Booking) (br : BookingRoom)
      → In b db.bookings
      → Change (is_admin user) b.status t
      → is_live (save (λ (x : Booking). x.id) (record b { status = t }) db.bookings) br ≡ true
      → is_live db.bookings br ≡ true
  unfolding is_live
  Patched-live b br m c h =
      let live : Booking → Bool = λ x. x.id == br.booking_id && not_terminal x.status in
      elim (any-save live (λ (x : Booking). x.id) (record b { status = t }) db.bookings h) [
        | inl now ↦ any_of_In live b db.bookings m (let was = Change-live c in ground arith)
        | inr before ↦ before
      ]

  Patched-Calendar :
      (r : Result Booking × StayDb) → Patched id t user db r → Calendar db → Calendar r.1
  Patched-Calendar (err e, db') p c = rw p c
  Patched-Calendar (ok answer, db') (b, mb, v, ch, e, _, _) c =
      rw (e, bookings-sync_rooms, booking_rooms-sync_rooms)
        (NoOverlap-mono db.bookings
          (save (λ (x : Booking). x.id) (record b { status = t }) db.bookings) db.booking_rooms
          (All-intro
            (λ br.
              is_live (save (λ (x : Booking). x.id) (record b { status = t }) db.bookings) br ≡ true
              → is_live db.bookings br ≡ true)
            db.booking_rooms (λ br. Patched-live b br mb ch))
          c)

module _ (orm : Orm) (id : ℕ) (t : BookingStatus) (user : AuthenticatedUser) (db : StayDb) where
  -- Where identifiers are unique, a booking that is cancelled or checked out, or that the caller may
  -- not see under the identifier, is unchanged by `patchStatus`.
  pub patch_status-keeps :
      (a : Booking)
      → UniqueIds (λ (b : Booking). b.id) db.bookings
      → In a db.bookings
      → (is_visible id user a ≡ false) ⊎ (not_terminal a.status ≡ false)
      → In a (patch_status orm id t user db).1.bookings
  patch_status-keeps a u m k =
      Patched-keeps id t user db a (patch_status orm id t user db) u m k
        (patch_status-Patched orm id t user db)

  -- A booking that is CONFIRMED after `patchStatus` was there, and confirmed, before: nobody confirms
  -- a booking by hand.
  pub patch_status_never_confirms :
      (a : Booking)
      → In a (patch_status orm id t user db).1.bookings
      → a.status ≡ BookingStatus.confirmed
      → In a db.bookings
  patch_status_never_confirms a =
      Patched-never_confirms id t user db a (patch_status orm id t user db)
        (patch_status-Patched orm id t user db)

  -- If no two live stays share a room for a night, none do after `patchStatus`.
  pub patch_status-Calendar : Calendar db → Calendar (patch_status orm id t user db).1
  patch_status-Calendar =
      Patched-Calendar id t user db (patch_status orm id t user db)
        (patch_status-Patched orm id t user db)
